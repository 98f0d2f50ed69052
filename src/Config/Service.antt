-- ===== src/Config/Service.antt =====
-- rust/dynamod-svmgr/src/config/service.rs: a parsed service definition. The TOML parser is not
-- part of the repository; definitions are what it yields.
use dynamod.Common.{ℕ, String, Bool, List, Option}
use dynamod.Common.Map.{Map}

pub data ServiceType : Type 0 where
  simple oneshot forking notify : ServiceType

pub data RestartPolicy : Type 0 where
  permanent transient temporary : RestartPolicy

pub data ReadinessType : Type 0 where
  immediate notified tcp_port exec fd : ReadinessType

pub record UserSection : Type 0 where
  pub user : Option String
  pub group : Option String
  pub supplementary_groups : List String

pub record ServiceSection : Type 0 where
  pub name : String
  pub supervisor : String
  pub exec : List String
  pub workdir : Option String
  pub service_type : ServiceType
  pub environment : Map String String
  pub environment_file : Option String
  pub user : Option UserSection

pub record RestartSection : Type 0 where
  pub policy : RestartPolicy
  pub delay : String
  pub max_restarts : ℕ
  pub max_restart_window : String

pub record ReadinessSection : Type 0 where
  pub readiness_type : ReadinessType
  pub port : Option ℕ
  pub check_exec : Option (List String)
  pub timeout : String

pub record DependencySection : Type 0 where
  pub requires : List String
  pub wants : List String
  pub after : List String
  pub before : List String

pub record CgroupSection : Type 0 where
  pub memory_max : Option String
  pub memory_high : Option String
  pub cpu_weight : Option ℕ
  pub cpu_max : Option String
  pub pids_max : Option ℕ
  pub io_weight : Option ℕ

pub record BindMount : Type 0 where
  pub source : String
  pub target : String
  pub writable : Bool

pub record NamespaceSection : Type 0 where
  pub enable : List String
  pub bind_mounts : List BindMount
  pub private_tmp : Bool
  pub protect_system : Option String

pub record ShutdownSection : Type 0 where
  pub stop_signal : String
  pub stop_timeout : String
  pub stop_exec : Option (List String)

pub record ServiceDef : Type 0 where
  pub service : ServiceSection
  pub restart : RestartSection
  pub readiness : ReadinessSection
  pub dependencies : DependencySection
  pub cgroup : Option CgroupSection
  pub namespace : Option NamespaceSection
  pub shutdown : ShutdownSection
