-- ===== src/Login.antt =====
-- rust/dynamod-logind/src: the login daemon.
pub mod Data
pub mod State
pub mod Daemon
pub mod Session
pub mod Power
pub mod Paths
mod Tests
