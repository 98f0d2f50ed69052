-- ===== src/Process.antt =====
-- rust/dynamod-svmgr/src/process: the processes of services.
pub mod Readiness
pub mod Monitor
