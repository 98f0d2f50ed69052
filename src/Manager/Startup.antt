-- ===== src/Manager/Startup.antt =====
-- rust/dynamod-svmgr/src/main.rs: the loop that starts the services as their dependencies allow.
use dynamod.Common.{
  ℕ, zero, suc, String, Bool, true, false, not, ◌&&◌, List, [], ◌∷◌, Option, none, some, string_key,
}
use mathlib.Core.Option
use dynamod.Common.Lists.{length}
use dynamod.Common.Map
use dynamod.Common.Map.{Map}
use dynamod.Common.Set
use dynamod.Config.Service.{ServiceType, oneshot}
use dynamod.Dependency.Frontier
use dynamod.Dependency.Frontier.{StartupFrontier, take_ready, mark_ready, mark_failed, has_ready}
use dynamod.Dependency.Graph.{DependencyGraph}
use dynamod.Process.Readiness.{
  Probes, ReadinessTracker, ReadinessResult, ready, not_ready, timed_out, failed, set_ready_fd,
  is_immediate, check,
}
use dynamod.Process.Readiness
use dynamod.Supervisor.Lifecycle.{ExitInfo, is_normal}
use dynamod.Supervisor.Tree.{WorkerNode, get_worker, unregister_pid}
use dynamod.Manager.World.{
  WaitStatus, exited, signaled, still_alive, no_children, interrupted, other, Manager, tick,
  instant, wait_status, waited,
}
use dynamod.Manager.Workers.{start_worker, registered}
use dynamod.Manager.Exits.{
  unregistered, note_exit, handle_child_exit, with_code, with_signal, reap_and_handle_exits,
}

-- The local variables of the loop.
pub record StartUp : Type 0 where
  pub manager : Manager
  pub frontier : StartupFrontier
  pub readiness_trackers : Map String ReadinessTracker
  pub pending_oneshots : List String

abbrev pub with_manager : StartUp → Manager → StartUp
with_manager s m = record s { manager = m }

abbrev pub with_frontier : StartUp → StartupFrontier → StartUp
with_frontier s f = record s { frontier = f }

unfoldable pub initial : DependencyGraph → Manager → StartUp
initial g m = record {
  manager = m;
  frontier = Frontier.new g;
  readiness_trackers = [];
  pending_oneshots = [];
}

abbrev pub oneshot_done : String → ℕ → ExitInfo → StartUp → StartUp
oneshot_done name pid exit s = record s {
  manager = note_exit name exit (unregistered pid s.manager);
  pending_oneshots = Set.remove name s.pending_oneshots;
}

-- A pending oneshot that ends is ready or failed.
unfoldable pub finish_oneshot : DependencyGraph → String → ℕ → ExitInfo → StartUp → Option StartUp
finish_oneshot g name pid exit s =
    let s' = oneshot_done name pid exit s in
    elim (is_normal exit) [
      | true ↦ some (with_frontier s' (mark_ready name g s'.frontier))
      | false ↦ Option.map (with_frontier s') (mark_failed name g s'.frontier)
    ]

-- Another service's end is handled as usual, with its process registered again before.
unfoldable pub other_exit : String → ℕ → ExitInfo → StartUp → Option StartUp
other_exit name pid exit s = Option.map (with_manager s) (
    handle_child_exit reap_and_handle_exits pid exit
      (registered name pid (unregistered pid s.manager)))

unfoldable pub startup_exit : DependencyGraph → ℕ → ExitInfo → StartUp → Option StartUp
unfolding finish_oneshot other_exit
startup_exit g pid exit s = elim (unregister_pid pid s.manager.tree).1 [
  | none ↦ some (with_manager s (unregistered pid s.manager))
  | some name ↦ elim (Set.contains name s.pending_oneshots) [
    | true ↦ finish_oneshot g name pid exit s
    | false ↦ other_exit name pid exit s
  ]
]

unfoldable pub on_startup_status :
    (StartUp → Option StartUp) → DependencyGraph → WaitStatus → StartUp → Option StartUp
unfolding startup_exit
on_startup_status reap g (exited pid code) s =
    Option.bind (startup_exit g pid (with_code code) s) reap
on_startup_status reap g (signaled pid sig) s =
    Option.bind (startup_exit g pid (with_signal sig) s) reap
on_startup_status reap g still_alive s = some s
on_startup_status reap g no_children s = some s
on_startup_status reap g interrupted s = reap s
on_startup_status reap g other s = some s

unfoldable pub reap_oneshots_within : ℕ → DependencyGraph → StartUp → Option StartUp
unfolding on_startup_status
reap_oneshots_within zero g s = none
reap_oneshots_within (suc fuel) g s =
    on_startup_status (reap_oneshots_within fuel g) g (wait_status s.manager)
      (with_manager s (waited s.manager))

unfoldable pub reap_oneshots_during_startup : DependencyGraph → StartUp → Option StartUp
unfolding reap_oneshots_within
reap_oneshots_during_startup g s = reap_oneshots_within (suc (length s.manager.waits)) g s

abbrev pub is_oneshot : ServiceType → Bool
is_oneshot oneshot = true
is_oneshot _ = false

abbrev pub wire : Option ℕ → ReadinessTracker → ReadinessTracker
wire none t = t
wire (some n) t = set_ready_fd n t

abbrev pub place : Bool → Bool → String → ReadinessTracker → DependencyGraph → StartUp → StartUp
place true true name t g s = record s { pending_oneshots = Set.insert name s.pending_oneshots }
place false true name t g s = record s { frontier = mark_ready name g s.frontier }
place _ false name t g s = record s { readiness_trackers = Map.insert name t s.readiness_trackers }

unfoldable pub track :
    Probes → DependencyGraph → String → Option ℕ → Option WorkerNode → StartUp → StartUp
track p g name ready_fd none s = s
track p g name ready_fd (some w) s =
    let t = wire ready_fd (Readiness.new p (instant s.manager) w.def.readiness name) in
    place (is_oneshot w.def.service.service_type) (is_immediate t) name t g
      (with_manager s (tick s.manager))

-- "Start any services whose dependencies are satisfied".
unfoldable pub start_batch : Probes → DependencyGraph → List String → StartUp → StartUp
unfolding track
start_batch p g [] s = s
start_batch p g (name ∷ batch) s =
    let (m, ready_fd) = start_worker name s.manager in
    start_batch p g batch (track p g name ready_fd (get_worker m.tree name) (with_manager s m))

abbrev pub untrack : String → StartUp → StartUp
untrack name s = record s { readiness_trackers = Map.remove name s.readiness_trackers }

unfoldable pub on_result : DependencyGraph → String → ReadinessResult → StartUp → Option StartUp
on_result g name ready s = some (with_frontier (untrack name s) (mark_ready name g s.frontier))
on_result g name not_ready s = some s
on_result g name timed_out s =
    Option.map (with_frontier (untrack name s)) (mark_failed name g s.frontier)
on_result g name (failed message) s =
    Option.map (with_frontier (untrack name s)) (mark_failed name g s.frontier)

abbrev pub poll_tracker :
    Probes → DependencyGraph → String → Option ReadinessTracker → StartUp → Option StartUp
poll_tracker p g name none s = some s
poll_tracker p g name (some t) s =
    on_result g name (check p (instant s.manager) t) (with_manager s (tick s.manager))

abbrev pub keys : Map String ReadinessTracker → List String
keys [] = []
keys ((k, v) ∷ m) = k ∷ keys m

-- "Poll pending readiness checks".
unfoldable pub poll_trackers : Probes → DependencyGraph → List String → StartUp → Option StartUp
unfolding on_result
poll_trackers p g [] s = some s
poll_trackers p g (name ∷ names) s =
    Option.bind (poll_tracker p g name (Map.lookup name s.readiness_trackers) s)
      (poll_trackers p g names)

abbrev pub begin_batch : Probes → DependencyGraph → StartUp → StartUp
begin_batch p g s =
    start_batch p g (take_ready s.frontier).1 (with_frontier s (take_ready s.frontier).0)

-- One turn of the loop, up to the test whether it is over.
unfoldable pub startup_turn : Probes → DependencyGraph → StartUp → Option StartUp
unfolding reap_oneshots_during_startup start_batch poll_trackers
startup_turn p g s = Option.bind (reap_oneshots_during_startup g s) (λ reaped.
    let started = begin_batch p g reaped in
    poll_trackers p g (keys started.readiness_trackers) started)

abbrev is_empty {ℓ} : {A : Type ℓ} → List A → Bool
is_empty [] = true
is_empty (x ∷ xs) = false

unfoldable pub is_over : StartUp → Bool
unfolding has_ready
is_over s =
    not (has_ready s.frontier) && is_empty s.readiness_trackers && is_empty s.pending_oneshots
