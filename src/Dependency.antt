-- ===== src/Dependency.antt =====
-- Start-up ordering in svmgr: rust/dynamod-svmgr/src/dependency.
pub mod Graph
pub mod Frontier
pub mod Cycle
mod Tests
