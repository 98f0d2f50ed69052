-- ===== src/Config/Sample.antt =====
-- A definition for the tests: the defaults of rust/dynamod-svmgr/src/config/service.rs, with a name
-- and with dependencies.
use dynamod.Common.{String, List, [], ◌∷◌, none}
use dynamod.Config.Service.{ServiceDef}
use dynamod.Config.Defaults.{
  default_supervisor, default_service_type, default_restart, default_readiness, default_shutdown,
}

abbrev pub service : String → List String → List String → ServiceDef
service name requires after = record {
  service = record {
    name = name;
    supervisor = default_supervisor;
    exec = "/bin/true" ∷ [];
    workdir = none;
    service_type = default_service_type;
    environment = [];
    environment_file = none;
    user = none;
  };
  restart = default_restart;
  readiness = default_readiness;
  dependencies = record { requires = requires; wants = []; after = after; before = [] };
  cgroup = none;
  namespace = none;
  shutdown = default_shutdown;
}
