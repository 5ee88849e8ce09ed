-- ===== src/Daemon.antt =====
-- garwarp/src/daemon.rs: the daemon's state, one control connection and one round of its loop.
pub mod State
pub mod Connection
pub mod Round
pub mod Site
pub mod Process
pub mod Examples
