-- ===== src/Monitor.antt =====
-- internal/monitor: polling cycles, the cached status of a target, and the targets together.
pub mod State
pub mod Restart
pub mod Poll
pub mod NoPoll
pub mod FollowUp
pub mod Manager
pub mod Tables
