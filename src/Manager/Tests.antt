-- ===== src/Manager/Tests.antt =====
-- Runs of the manager on two oneshots, and its theorems at them.
use dynamod.Common.{
  ℕ, String, ◌≡◌, refl, true, false, List, [], ◌∷◌, Option, none, some, unwrap_or, string_discrete,
  ℕ_discrete, string_key, nat_key, arith,
}
use mathlib.Core.Option
use dynamod.Common.Map
use dynamod.Common.Set
use dynamod.Cgroup.Monitor
use dynamod.Cgroup.Monitor.{Readings}
use dynamod.Config.Duration.{parse_duration_secs}
use dynamod.Config.Sample.{service}
use dynamod.Config.Service.{ServiceDef, oneshot}
use dynamod.Dependency.Frontier
use dynamod.Dependency.Frontier.{take_ready, mark_ready, mark_failed, has_ready}
use dynamod.Dependency.Frontier.Order.{Reach}
use dynamod.Dependency.Graph.{build, dependents_of, dependencies_of, requires_of}
use dynamod.Dependency.Graph.Build.{declared, declared_requires}
use dynamod.Dependency.Graph.Declared.{named}
use dynamod.Process.Readiness
use dynamod.Process.Readiness.{Probes, unsuccessful, would_block, is_immediate, check}
use dynamod.Supervisor.Intensity
use dynamod.Supervisor.Lifecycle.{is_normal, exit_state}
use dynamod.Supervisor.Strategy.{apply_strategy}
use dynamod.Supervisor.Tree
use dynamod.Supervisor.Tree.{
  SupervisorTree, get, get_worker, get_supervisor, register_pid, unregister_pid, update_worker,
  update_supervisor, parent_of, children_of, add_worker, add_supervisor, worker_for_pid,
}
use dynamod.Supervisor.Tree.Invariant.{IsWellFormed}
use dynamod.Manager.World.{
  Manager, WaitStatus, exited, Spawned, call, tick, waited, spawn, service_path,
}
use dynamod.Manager.Workers.{start_worker, stop_worker}
use dynamod.Manager.Exits.{
  note_exit, handle_child_exit, execute_strategy_action, supervise, reap_and_handle_exits,
}
use dynamod.Manager.Requests.{build_tree}
use dynamod.Manager.Built.{build_tree-IsWellFormed}
use dynamod.Manager.Order.Refinement.{
  Looping, begun, turned, served, startup_turn_refines, awaited_in_order,
}
use dynamod.Manager.Preserved.{start_worker-Preserved}
use dynamod.Manager.Tracking.{
  IsTracked, IsTracked-Preserved, Fresh, reap_and_handle_exits-IsTracked,
}
use dynamod.Manager.Startup.{
  StartUp, initial, startup_turn, reap_oneshots_during_startup, reap_oneshots_within,
  on_startup_status, startup_exit, finish_oneshot, other_exit, track, start_batch, on_result,
  poll_trackers, is_over,
}

abbrev pub task : String → List String → ServiceDef
task name requires =
    let def = service name requires [] in
    record def { service = record def.service { service_type = oneshot } }

-- `b` requires `a`.
abbrev pub tasks : List ServiceDef
tasks = task "a" [] ∷ task "b" ("a" ∷ []) ∷ []

abbrev pub readings : Readings
readings = record {
  oom_kill_count = λ path. 0;
  memory_current = λ path. none;
  memory_high_mark = λ path. none;
}

abbrev pub process : ℕ → Option Spawned
process pid = some (record { pid = pid; ready_fd = none })

abbrev pub idle : List WaitStatus → Manager
idle waits = record {
  tree = build_tree [] tasks;
  cgroup_hierarchy = none;
  cgroup_monitor = Monitor.new;
  waits = waits;
  spawns = process 7 ∷ process 8 ∷ process 9 ∷ [];
  clock = λ n. n;
  files = λ n. readings;
  creatable = λ n path. true;
  moment = 0;
  calls = [];
}

abbrev probes : Probes
probes = record {
  binds = λ path. true;
  connects = λ port. false;
  runs = λ command. unsuccessful;
  receives = λ path. none;
  reads = λ n. would_block;
}

abbrev at_first : StartUp
at_first = initial (build tasks) (idle [])

abbrev turn : List WaitStatus → StartUp → StartUp
turn waits s =
    let s' = record s { manager = record s.manager { waits = waits } } in
    unwrap_or (startup_turn probes (build tasks) s') s'

abbrev a_started : StartUp
a_started = turn [] at_first

abbrev b_started : StartUp
b_started = turn (exited 7 0 ∷ []) a_started

-- What a run of the code computes with.
program : Unit {0}
unfolding build named Map.lookup Map.insert Map.remove Map.adjust Set.contains Set.insert Set.remove
    string_discrete ℕ_discrete Frontier.new take_ready mark_ready mark_failed dependents_of
    dependencies_of requires_of declared declared_requires initial startup_turn start_worker
    stop_worker call tick waited get get_worker get_supervisor register_pid unregister_pid
    update_worker update_supervisor parent_of children_of note_exit handle_child_exit
    execute_strategy_action supervise reap_and_handle_exits reap_oneshots_during_startup
    reap_oneshots_within on_startup_status startup_exit finish_oneshot other_exit track start_batch
    on_result poll_trackers Readiness.new is_immediate check parse_duration_secs build_tree
    add_worker add_supervisor Tree.new Intensity.new Monitor.watch Monitor.unwatch apply_strategy
    is_normal exit_state service_path Option.bind is_over has_ready
program = tt

a_waits : a_started.pending_oneshots ≡ "a" ∷ []
unfolding program
a_waits = refl

b_waits : b_started.pending_oneshots ≡ "b" ∷ []
unfolding program
b_waits = refl

b_calls : b_started.manager.calls ≡ spawn "a" ∷ spawn "b" ∷ []
unfolding program
b_calls = refl

build_tree-IsWellFormed_example : IsWellFormed (build_tree [] tasks)
build_tree-IsWellFormed_example = build_tree-IsWellFormed [] tasks

-- `a` runs as process 7, which has ended with code 1.
abbrev pub a_running : Manager
a_running = (start_worker "a" (idle (exited 7 1 ∷ []))).0

idle-IsTracked : (waits : List WaitStatus) → IsTracked (idle waits)
unfolding program Fresh worker_for_pid
idle-IsTracked waits = record {
  known = λ id p h. absurd (ground (arith, h));
  fresh = (refl, refl, (refl, refl, (refl, refl, tt)));
}

reap_and_handle_exits-IsTracked_example :
    (r : Manager) × (reap_and_handle_exits a_running ≡ some r) × IsTracked r
reap_and_handle_exits-IsTracked_example = reap_and_handle_exits-IsTracked a_running (
    start_worker-Preserved IsTracked-Preserved "a" (idle (exited 7 1 ∷ []))
      (idle-IsTracked (exited 7 1 ∷ [])))

at_first_reached : Looping (build tasks) at_first
at_first_reached = begun (idle [])

a_started_reached : Looping (build tasks) a_started
unfolding program
a_started_reached = turned probes _ a_started (served at_first (idle []) (begun (idle []))) refl

b_started_reached : Looping (build tasks) b_started
unfolding program
b_started_reached =
    turned probes _ b_started
      (served a_started (record a_started.manager { waits = exited 7 0 ∷ [] }) a_started_reached)
      refl

startup_turn_refines_example :
    Reach (build tasks) a_started.frontier
    × ((r : StartUp) × (startup_turn probes (build tasks) a_started ≡ some r)
        × Reach (build tasks) r.frontier)
startup_turn_refines_example = startup_turn_refines tasks a_started a_started_reached probes

awaited_in_order_example :
    (Set.contains "a" b_started.frontier.completed ≡ true)
    × (Set.contains "a" b_started.frontier.blocked ≡ false)
unfolding program
awaited_in_order_example = awaited_in_order tasks b_started b_started_reached "b" "a" refl refl
