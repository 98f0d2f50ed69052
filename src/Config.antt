-- ===== src/Config.antt =====
-- The configuration that svmgr loads from TOML files: rust/dynamod-svmgr/src/config.
pub mod Service
pub mod Supervisor
pub mod Validate
pub mod Defaults
pub mod Sample
mod Tests
pub mod Duration
