-- ===== src/Manager.antt =====
-- rust/dynamod-svmgr/src/main.rs: the service manager's process. Its state is the supervisor tree
-- and the monitor of cgroups; what the system answers is part of the state and consumed in order.
pub mod World
pub mod Workers
pub mod Exits
pub mod Startup
pub mod Requests
pub mod Preserved
pub mod Reaping
pub mod Shape
pub mod Pids
pub mod Tracking
pub mod Built
pub mod Order
pub mod Stopping
pub mod Events
mod Tests
