-- ===== src/Session.antt =====
-- The keystoneauth1 instrumentation
-- (instrumentation/opentelemetry-instrumentation-keystoneauth1, package keystoneauth1).
pub mod Request
pub mod Continuity
pub mod Tests
pub mod Instrumentor
