-- ===== src/Keystone.antt =====
-- The keystonemiddleware instrumentation
-- (instrumentation/opentelemetry-instrumentation-keystonemiddleware, package keystonemiddleware).
pub mod Environ
pub mod Headers
pub mod Token
pub mod Middleware
pub mod Scope
pub mod Identity
pub mod Refused
pub mod Continuity
pub mod Tests
pub mod Instrumentor
