-- ===== src/Log.antt =====
-- rust/dynamod-logd/src: the log daemon.
pub mod Collector
pub mod Storage
mod Tests
