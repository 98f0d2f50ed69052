-- ===== src/Supervisor.antt =====
-- The supervisor tree of svmgr: rust/dynamod-svmgr/src/supervisor.
pub mod Intensity
pub mod Lifecycle
pub mod Tree
pub mod Strategy
mod Tests
