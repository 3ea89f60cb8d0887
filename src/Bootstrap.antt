-- ===== src/Bootstrap.antt =====
-- The early start of auto-instrumentation for oslo.service
-- (instrumentation/opentelemetry-instrumentation-oslo-service, package auto_instrumentation and
-- module oslo_service/distro.py).
pub mod Entries
pub mod Process
pub mod Forkhook
pub mod Sdk
pub mod Patch
pub mod Patched
pub mod Pinned
pub mod Distro
pub mod Rebound
mod Tests
