-- ===== src/Config/Supervisor.antt =====
-- rust/dynamod-svmgr/src/config/supervisor.rs: a parsed supervisor definition.
use dynamod.Common.{ℕ, String, Option}

pub data RestartStrategy : Type 0 where
  one_for_one one_for_all rest_for_one : RestartStrategy

pub record SupervisorSection : Type 0 where
  pub name : String
  pub parent : Option String
  pub strategy : RestartStrategy

pub record SupervisorRestartSection : Type 0 where
  pub max_restarts : ℕ
  pub max_restart_window : String

pub record SupervisorDef : Type 0 where
  pub supervisor : SupervisorSection
  pub restart : SupervisorRestartSection
