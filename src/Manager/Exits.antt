-- ===== src/Manager/Exits.antt =====
-- rust/dynamod-svmgr/src/main.rs: what the manager does when processes end. Handling one end can
-- reap others, so the two are functions on fuel; the loop takes the next one as an argument.
use dynamod.Common.{
  ℕ, zero, suc, ◌*◌, ltb, Bool, true, false, List, [], ◌∷◌, Option, none, some, if◌then◌else◌,
  unwrap_or,
}
use mathlib.Core.Option
use dynamod.Common.Lists.{length}
use dynamod.Cgroup.Monitor.{unwatch}
use dynamod.Config.Duration.{parse_duration_secs}
use dynamod.Supervisor.Lifecycle.{ExitInfo, exit_state, is_running}
use dynamod.Supervisor.Strategy.{StrategyAction, apply_strategy, escalate_failure}
use dynamod.Supervisor.Tree.{
  NodeId, SupervisorTree, WorkerNode, get_worker, unregister_pid, update_worker, parent_of,
}
use dynamod.Manager.World.{
  WaitStatus, exited, signaled, still_alive, no_children, interrupted, other, Manager, tick, call,
  sleep, instant, wait_status, waited, with_tree,
}
use dynamod.Manager.Workers.{start_worker, stop_worker, remove_service_cgroup}

abbrev pub is_running_worker : Option WorkerNode → Bool
is_running_worker none = false
is_running_worker (some w) = is_running w.state

-- "Stop children that need stopping".
unfoldable pub stop_each : List NodeId → Manager → Manager
stop_each [] m = m
stop_each (id ∷ ids) m =
    stop_each ids (if is_running_worker (get_worker m.tree id) then stop_worker id m else m)

abbrev pub delay_of : WorkerNode → ℕ
delay_of w = unwrap_or (parse_duration_secs w.def.restart.delay) 1

abbrev pub wait_for : Option WorkerNode → Manager → Manager
wait_for none m = m
wait_for (some w) m = if ltb 0 (delay_of w) then call (sleep (1000 * delay_of w)) m else m

-- "Start children that need starting", each after its delay.
unfoldable pub start_each : List NodeId → Manager → Manager
start_each [] m = m
start_each (id ∷ ids) m = start_each ids (start_worker id (wait_for (get_worker m.tree id) m)).0

unfoldable pub settle : (Manager → Option Manager) → List NodeId → Manager → Option Manager
settle reap [] m = some m
settle reap (id ∷ ids) m = reap (call (sleep 100) m)

unfoldable pub execute_strategy_action :
    (Manager → Option Manager) → StrategyAction → Manager → Option Manager
unfolding stop_each start_each settle
execute_strategy_action reap action m =
    Option.map (start_each action.to_start)
      (settle reap action.to_stop (stop_each action.to_stop m))

abbrev pub escalate : (Manager → Option Manager) → NodeId → Manager → Option Manager
escalate reap supervisor_id m = elim (escalate_failure m.tree supervisor_id (instant m)) [
  | none ↦ some m
  | some (parent, tree, action) ↦ execute_strategy_action reap action (tick (with_tree tree m))
]

abbrev pub decided : NodeId → NodeId → ExitInfo → Manager → SupervisorTree × StrategyAction
decided supervisor_id id exit m = apply_strategy m.tree supervisor_id id exit (instant m)

abbrev pub respond :
    (Manager → Option Manager) → NodeId → SupervisorTree × StrategyAction → Manager → Option Manager
respond reap supervisor_id (tree, action) m = elim action.supervisor_failed [
  | true ↦ escalate reap supervisor_id (tick (with_tree tree m))
  | false ↦ execute_strategy_action reap action (tick (with_tree tree m))
]

-- "Apply the supervisor's restart strategy", and escalate if it gives up.
unfoldable pub supervise : (Manager → Option Manager) → NodeId → ExitInfo → Manager → Option Manager
unfolding execute_strategy_action
supervise reap id exit m = elim (parent_of m.tree id) [
  | none ↦ some m
  | some supervisor_id ↦ respond reap supervisor_id (decided supervisor_id id exit m) m
]

abbrev pub unregistered : ℕ → Manager → Manager
unregistered pid m = with_tree (unregister_pid pid m.tree).0 m

abbrev pub mark_ended : NodeId → ExitInfo → Manager → Manager
mark_ended id exit m =
    with_tree (update_worker id (λ w. record w { pid = none; state = exit_state exit }) m.tree) m

abbrev pub unwatched : NodeId → Manager → Manager
unwatched id m = record m { cgroup_monitor = unwatch id m.cgroup_monitor }

-- The end is noted in the tree, and the service's cgroup is removed.
unfoldable pub note_exit : NodeId → ExitInfo → Manager → Manager
note_exit id exit m = remove_service_cgroup id (unwatched id (mark_ended id exit m))

unfoldable pub handle_child_exit :
    (Manager → Option Manager) → ℕ → ExitInfo → Manager → Option Manager
unfolding supervise note_exit
handle_child_exit reap pid exit m = elim (unregister_pid pid m.tree).1 [
  | none ↦ some (unregistered pid m)
  | some id ↦ supervise reap id exit (note_exit id exit (unregistered pid m))
]

abbrev pub with_code : ℕ → ExitInfo
with_code code = record { exit_code = some code; signal = none }

abbrev pub with_signal : ℕ → ExitInfo
with_signal sig = record { exit_code = none; signal = some sig }

-- The body of the loop; `reap` is its next turn.
unfoldable pub on_status : (Manager → Option Manager) → WaitStatus → Manager → Option Manager
unfolding handle_child_exit
on_status reap (exited pid code) m =
    Option.bind (handle_child_exit reap pid (with_code code) m) reap
on_status reap (signaled pid sig) m =
    Option.bind (handle_child_exit reap pid (with_signal sig) m) reap
on_status reap still_alive m = some m
on_status reap no_children m = some m
on_status reap interrupted m = reap m
on_status reap other m = some m

unfoldable pub reap_within : ℕ → Manager → Option Manager
unfolding on_status
reap_within zero m = none
reap_within (suc fuel) m = on_status (reap_within fuel) (wait_status m) (waited m)

-- One more turn than there are answers to come. The code has no such limit: its loop goes on for as long
-- as children end, those included that it has started again itself.
unfoldable pub reap_and_handle_exits : Manager → Option Manager
unfolding reap_within
reap_and_handle_exits m = reap_within (suc (length m.waits)) m
