-- ===== src/Supervisor/Tests.antt =====
-- Runs of the supervisor's code on small trees, and its theorems at them.
use dynamod.Common.{
  ℕ, String, ◌≡◌, refl, true, false, [], ◌∷◌, none, some, arith, string_discrete, ℕ_discrete,
}
use dynamod.Common.Map
use dynamod.Common.Set
use dynamod.Config.Service.{ServiceDef, RestartPolicy, permanent, temporary}
use dynamod.Config.Defaults.{
  default_service_type, default_restart, default_readiness, default_dependencies, default_shutdown,
}
use dynamod.Config.Supervisor.{one_for_one, rest_for_one}
use dynamod.Supervisor.Intensity
use dynamod.Supervisor.Intensity.{RestartIntensity, record_restart_at, current_count}
use dynamod.Supervisor.Intensity.Window.{record_restart_at-counts, record_all, since}
use dynamod.Supervisor.Lifecycle
use dynamod.Supervisor.Lifecycle.{ExitInfo, is_normal}
use dynamod.Supervisor.Tree.{
  SupervisorTree, SupervisorNode, WorkerNode, Result, ok, err, add_supervisor, add_worker,
  get_worker, get_supervisor, new, parent_of, children_of, update_supervisor,
}
use dynamod.Supervisor.Tree.Invariant.{IsWellFormed, new-IsWellFormed}
use dynamod.Supervisor.Strategy.{
  apply_strategy, escalate_failure, dispatch, no_action, should_restart,
}
use dynamod.Supervisor.Strategy.Affected.{Cut, dispatch-restarted, restarted, stopped_first}
use dynamod.Supervisor.Strategy.Outcome.{apply_strategy-gives_up, escalate_failure-no_action}

record_restart_at-counts_example :
    (record_restart_at (record_all (Intensity.new 2 10) (20 ∷ 31 ∷ 35 ∷ [])) 41).1 ≡ true
unfolding since
record_restart_at-counts_example =
    (record_restart_at-counts 2 10 20 41 (20 ∷ 31 ∷ 35 ∷ []) (omega arith) (omega arith)).0

abbrev limit : RestartIntensity
limit = Intensity.new 1 60

abbrev service : String → RestartPolicy → ServiceDef
service name policy = record {
  service = record {
    name = name;
    supervisor = "net";
    exec = "/bin/true" ∷ [];
    workdir = none;
    service_type = default_service_type;
    environment = [];
    environment_file = none;
    user = none;
  };
  restart = record default_restart { policy = policy };
  readiness = default_readiness;
  dependencies = default_dependencies;
  cgroup = none;
  namespace = none;
  shutdown = default_shutdown;
}

abbrev tree_or : SupervisorTree → Result SupervisorTree → SupervisorTree
tree_or d (ok t) = t
tree_or d (err e) = d

abbrev root_only : SupervisorTree
root_only = new "root" one_for_one limit

abbrev with_net : SupervisorTree
with_net = tree_or root_only (add_supervisor root_only "net" "root" rest_for_one limit)

abbrev with_a : SupervisorTree
with_a = tree_or with_net (add_worker with_net (service "a" permanent) "net")

abbrev with_b : SupervisorTree
with_b = tree_or with_a (add_worker with_a (service "b" temporary) "net")

-- What a run of the code computes with.
program : Unit {0}
unfolding Intensity.new update_supervisor should_restart is_normal record_restart_at record_all
    since new add_supervisor add_worker get_worker get_supervisor parent_of children_of Map.lookup
    Map.insert Map.adjust Set.contains string_discrete ℕ_discrete
program = tt

single-IsWellFormed : IsWellFormed root_only
single-IsWellFormed = new-IsWellFormed "root" one_for_one limit

-- `net` as it stands in `with_b`, and its two workers.
abbrev net : SupervisorNode
net = record {
  name = "net";
  strategy = rest_for_one;
  intensity = limit;
  children = "a" ∷ "b" ∷ [];
  parent = some "root";
}

abbrev worker_named : String → RestartPolicy → ℕ → WorkerNode
worker_named name policy i = record {
  name = name;
  def = service name policy;
  state = Lifecycle.stopped;
  restart_policy = policy;
  start_index = i;
  parent = "net";
  pid = none;
}

abbrev crash : ExitInfo
crash = record { exit_code = some 1; signal = none }

dispatch-restarted_example :
    (cut : Cut ("a" ∷ "b" ∷ "c" ∷ []) "b") × (dispatch rest_for_one ("a" ∷ "b" ∷ "c" ∷ []) "b"
      ≡ record {
        to_stop = stopped_first rest_for_one cut;
        to_start = restarted rest_for_one cut;
        supervisor_failed = false;
      })
unfolding program
dispatch-restarted_example = dispatch-restarted rest_for_one ("a" ∷ "b" ∷ "c" ∷ []) "b" refl

-- `with_b` after a first restart at 70: one more restart is too many.
abbrev restarted_once : SupervisorTree
restarted_once =
    update_supervisor "net" (λ n. record n { intensity = (record_restart_at limit 70).0 }) with_b

apply_strategy-gives_up_example :
    (apply_strategy restarted_once "net" "a" crash 80).1
    ≡ record { to_stop = "a" ∷ "b" ∷ []; to_start = []; supervisor_failed = true }
unfolding program
apply_strategy-gives_up_example =
    (apply_strategy-gives_up restarted_once "net" "a" crash 80
      (record net { intensity = (record_restart_at limit 70).0 }) (worker_named "a" permanent 0)
      refl refl refl refl).0

escalate_failure-no_action_example :
    escalate_failure with_b "net" 80 ≡ some ("root", with_b, no_action)
unfolding program
escalate_failure-no_action_example = escalate_failure-no_action with_b "net" 80 net refl
