-- ===== src/Http.antt =====
-- An HTTP request from a session of keystoneauth1 to a service behind keystonemiddleware.
pub mod Continuity
pub mod Dispatch
mod Tests
