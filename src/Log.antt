-- ===== src/Log.antt =====
-- The oslo.log instrumentation
-- (instrumentation/opentelemetry-instrumentation-oslo-log, package oslo_log).
pub mod Attributes
pub mod Exported
pub mod Types
pub mod Factory
pub mod Correlated
pub mod Cached
pub mod Dispatch
pub mod Level
pub mod Instrumentor
pub mod Handlers
pub mod Attached
mod Tests
