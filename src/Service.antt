-- ===== src/Service.antt =====
-- The oslo.service instrumentation
-- (instrumentation/opentelemetry-instrumentation-oslo-service, package oslo_service).
pub mod Propagation
pub mod Continuity
pub mod Backend
pub mod Instrumentor
mod Tests
