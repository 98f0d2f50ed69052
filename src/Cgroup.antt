-- ===== src/Cgroup.antt =====
-- rust/dynamod-svmgr/src/cgroup: what the service manager keeps of the services' cgroups.
pub mod Monitor
mod Tests
