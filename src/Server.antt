-- ===== src/Server.antt =====
-- internal/server: what the HTTP handlers compute from a request and from a monitor's state.
pub mod Request
pub mod Status
pub mod Events
