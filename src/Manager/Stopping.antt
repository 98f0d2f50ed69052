-- ===== src/Manager/Stopping.antt =====
-- rust/dynamod-svmgr/src/shutdown.rs: how all services are stopped. What `waitpid` says of one process
-- at a moment is an argument. A `stop-exec` command is only started here: whether it
-- succeeds changes nothing, and the code waits for it. An instant is a number of nanoseconds without a
-- bound; the code panics where a deadline does not fit.
pub mod Signals
pub mod Waits
pub mod Ends
pub mod All
use dynamod.Common.{
  ℕ, zero, suc, ◌+◌, ◌-◌, ◌*◌, leb, String, Bool, true, false, List, [], ◌∷◌, Option, none, some,
  unwrap_or,
}
use mathlib.Core.Option
use dynamod.Config.Duration.{parse_duration_secs}
use dynamod.Config.Service.{ShutdownSection}
use dynamod.Dependency.Graph.{DependencyGraph}
use dynamod.Process.Readiness.{second}
use dynamod.Shutdown.{parse_signal, compute_reverse_topo_order}
use dynamod.Supervisor.Lifecycle.{stopping, stopped}
use dynamod.Supervisor.Tree.{NodeId, WorkerNode, get_worker, update_worker}
use dynamod.Manager.World.{
  WaitStatus, exited, signaled, still_alive, no_children, interrupted, other, Manager, tick, call,
  sleep, kill, send, run, instant, waited, with_tree,
}
use dynamod.Manager.Workers.{remove_service_cgroup}
use dynamod.Manager.Exits.{unregistered, unwatched}

-- After the stop signal, these answers end the wait.
abbrev pub has_ended : WaitStatus → Bool
has_ended (exited pid code) = true
has_ended (signaled pid sig) = true
has_ended no_children = true
has_ended still_alive = false
has_ended interrupted = false
has_ended other = false

-- After SIGKILL, all but one do.
abbrev pub is_not_alive : WaitStatus → Bool
is_not_alive still_alive = false
is_not_alive _ = true

-- Answers of `waitpid` for one process at a moment.
abbrev pub Answers : Type 0
Answers = ℕ → ℕ → WaitStatus

-- "Wait for the process to exit (polling with short sleeps)": whether it did before the deadline;
-- `none` if the fuel runs out.
unfoldable pub await_within :
    (WaitStatus → Bool) → Answers → ℕ → ℕ → ℕ → Manager → Option (Manager × Bool)
await_within over answers zero pid deadline m = none
await_within over answers (suc fuel) pid deadline m =
    let rest = await_within over answers fuel pid deadline (call (sleep 50) (tick (tick m))) in
    elim (over (answers m.moment pid)) [
      | true ↦ some (tick m, true)
      | false ↦ elim (leb deadline (instant (tick m))) [
        | true ↦ some (tick (tick m), false)
        | false ↦ rest
      ]
    ]

-- One turn more than there are nanoseconds to the deadline.
unfoldable pub await_end : (WaitStatus → Bool) → Answers → ℕ → ℕ → Manager → Option (Manager × Bool)
unfolding await_within
await_end over answers pid deadline m =
    await_within over answers (suc (deadline - instant m)) pid deadline m

abbrev pub mark_stopped : NodeId → Manager → Manager
mark_stopped name m =
    with_tree (update_worker name (λ w. record w { pid = none; state = stopped }) m.tree) m

-- "Clean up after a stopped service." The tree's process id is dropped whether or not the process has
-- ended, as in the code, which comes here also for one that survives SIGKILL.
unfoldable pub finalize_stop : NodeId → ℕ → Manager → Manager
finalize_stop name pid m =
    remove_service_cgroup name (unwatched name (mark_stopped name (unregistered pid m)))

abbrev pub run_stop_exec : Option (List String) → Manager → Manager
run_stop_exec none m = m
run_stop_exec (some []) m = m
run_stop_exec (some (program ∷ args)) m = call (run (program ∷ args)) m

-- In nanoseconds.
abbrev pub timeout_of : ShutdownSection → ℕ
timeout_of section = unwrap_or (parse_duration_secs section.stop_timeout) 10 * second

abbrev pub mark_stopping_until : NodeId → ℕ → Manager → Manager
mark_stopping_until name deadline m =
    with_tree (update_worker name (λ w. record w { state = stopping (some deadline) }) m.tree) m

-- "Timeout: escalate to SIGKILL".
unfoldable pub escalate_kill : Answers → ℕ → Manager × Bool → Option Manager
unfolding await_end
escalate_kill answers pid (m, true) = some m
escalate_kill answers pid (m, false) =
    let killed = call (kill pid) m in
    Option.map (λ r. r.0)
      (await_end is_not_alive answers pid (instant killed + 3 * second) (tick killed))

-- The signal is sent, and the deadline noted.
abbrev pub asked_to_stop : NodeId → ℕ → ShutdownSection → Manager → Manager
asked_to_stop name pid section m =
    let told =
      call (send (parse_signal section.stop_signal) pid) (run_stop_exec section.stop_exec m) in
    mark_stopping_until name (instant told + timeout_of section) (tick told)

unfoldable pub stop_process : Answers → NodeId → ℕ → ShutdownSection → Manager → Option Manager
unfolding await_end escalate_kill finalize_stop
stop_process answers name pid section m =
    let asked = asked_to_stop name pid section m in
    Option.map (finalize_stop name pid) (
      Option.bind
        (await_end has_ended answers pid (instant asked + timeout_of section) (tick asked))
        (escalate_kill answers pid))

abbrev pub stop_if_running :
    Answers → NodeId → Option ℕ → ShutdownSection → Manager → Option Manager
stop_if_running answers name none section m = some m
stop_if_running answers name (some pid) section m = stop_process answers name pid section m

unfoldable pub stop_service_graceful : Answers → NodeId → Manager → Option Manager
unfolding stop_process
stop_service_graceful answers name m = elim (get_worker m.tree name) [
  | none ↦ some m
  | some w ↦ stop_if_running answers name w.pid w.def.shutdown m
]

unfoldable pub stop_in_order : Answers → List NodeId → Manager → Option Manager
unfolding stop_service_graceful
stop_in_order answers [] m = some m
stop_in_order answers (name ∷ order) m =
    Option.bind (stop_service_graceful answers name m) (stop_in_order answers order)

-- "Reap any remaining zombie processes", on the answers that `m` has left.
unfoldable pub reap_answers : List WaitStatus → Manager → Manager
reap_answers [] m = waited m
reap_answers (still_alive ∷ ws) m = waited m
reap_answers (no_children ∷ ws) m = waited m
reap_answers (_ ∷ ws) m = reap_answers ws (waited m)

unfoldable pub reap_remaining : Manager → Manager
unfolding reap_answers
reap_remaining m = reap_answers m.waits m

unfoldable pub execute_shutdown : Answers → DependencyGraph → Manager → Option Manager
unfolding stop_in_order reap_remaining
execute_shutdown answers g m =
    Option.bind (compute_reverse_topo_order g)
      (λ order. Option.map reap_remaining (stop_in_order answers order m))
