-- ===== src/Otel.antt =====
-- The OpenTelemetry API that every instrumentor calls. Its code is not part of this repository, so
-- it is an interface: operations over a state that the API and the host program share, and the
-- behaviour that its documentation promises.
pub mod Span
pub mod Laws
pub mod Semconv
pub mod Memory
pub mod Restores
pub mod Bodies
