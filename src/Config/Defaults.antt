-- ===== src/Config/Defaults.antt =====
-- rust/dynamod-svmgr/src/config/service.rs: the defaults of a service definition.
use dynamod.Common.{ℕ, String, [], none}
use dynamod.Config.Service.{
  ServiceType, RestartPolicy, ReadinessType, RestartSection, ReadinessSection, DependencySection,
  ShutdownSection, permanent, simple, immediate,
}

abbrev pub default_supervisor : String
default_supervisor = "root"

abbrev pub default_service_type : ServiceType
default_service_type = simple

abbrev default_restart_policy : RestartPolicy
default_restart_policy = permanent

abbrev default_delay : String
default_delay = "1s"

abbrev default_max_restarts : ℕ
default_max_restarts = 5

abbrev default_max_restart_window : String
default_max_restart_window = "60s"

-- `ReadinessType::None`
abbrev default_readiness_type : ReadinessType
default_readiness_type = immediate

abbrev default_readiness_timeout : String
default_readiness_timeout = "30s"

abbrev default_stop_signal : String
default_stop_signal = "SIGTERM"

abbrev default_stop_timeout : String
default_stop_timeout = "10s"

-- `RestartSection::default()`, and so on for the others.
abbrev pub default_restart : RestartSection
default_restart = record {
  policy = default_restart_policy;
  delay = default_delay;
  max_restarts = default_max_restarts;
  max_restart_window = default_max_restart_window;
}

abbrev pub default_readiness : ReadinessSection
default_readiness = record {
  readiness_type = default_readiness_type;
  port = none;
  check_exec = none;
  timeout = default_readiness_timeout;
}

abbrev pub default_dependencies : DependencySection
default_dependencies = record { requires = []; wants = []; after = []; before = [] }

abbrev pub default_shutdown : ShutdownSection
default_shutdown = record {
  stop_signal = default_stop_signal;
  stop_timeout = default_stop_timeout;
  stop_exec = none;
}
