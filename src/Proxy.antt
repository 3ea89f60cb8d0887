-- ===== src/Proxy.antt =====
-- The openstacksdk instrumentation
-- (instrumentation/opentelemetry-instrumentation-openstacksdk, package openstacksdk).
pub mod Response
pub mod Same
pub mod Request
pub mod Continuity
pub mod Nested
mod Tests
pub mod Instrumentor
