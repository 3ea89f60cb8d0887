-- ===== src/Taskflow.antt =====
-- The TaskFlow instrumentation
-- (instrumentation/opentelemetry-instrumentation-taskflow, package taskflow).
pub mod Notification
pub mod Listener
pub mod Threads
pub mod Bodies
pub mod Patching
mod Tests
