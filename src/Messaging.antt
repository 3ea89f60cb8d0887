-- ===== src/Messaging.antt =====
-- The oslo.messaging instrumentation
-- (instrumentation/opentelemetry-instrumentation-oslo-messaging, package oslo_messaging).
pub mod Names
pub mod Attributes
pub mod Producer
pub mod Consumer
pub mod Scope
pub mod Delivery
pub mod Continuity
pub mod Payload
pub mod Tests
pub mod Broker
pub mod Instrumentor
