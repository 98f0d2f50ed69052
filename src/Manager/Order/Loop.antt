-- ===== src/Manager/Order/Loop.antt =====
-- Starting a batch and polling the trackers keep `Follows`.
use dynamod.Common.{
  ℕ, String, ◌≡◌, refl, true, List, [], ◌∷◌, Option, none, some, arith, string_key,
}
use dynamod.Common.Map
use dynamod.Common.Map.{lookup-remove}
use dynamod.Common.Set
use dynamod.Dependency.Frontier.{take_ready}
use dynamod.Dependency.Frontier.Order.{next, taking, Reach-Inv}
use dynamod.Dependency.Frontier.Start.{pending-take_ready}
use dynamod.Dependency.Graph.{DependencyGraph}
use dynamod.Dependency.Graph.Shape.{IsWellFormed}
use dynamod.Process.Readiness
use dynamod.Process.Readiness.{
  Probes, ReadinessTracker, ReadinessResult, ready, not_ready, timed_out, failed, is_immediate,
  check,
}
use dynamod.Supervisor.Tree.{WorkerNode, get_worker}
use dynamod.Manager.World.{tick, instant}
use dynamod.Manager.Workers.{start_worker}
use dynamod.Manager.Preserved.{Returns, Returns-bind}
use dynamod.Manager.Startup.{
  StartUp, with_manager, with_frontier, untrack, track, is_oneshot, wire, start_batch, on_result,
  poll_tracker, poll_trackers, begin_batch,
}
use dynamod.Manager.Order.{Follows, is_tracked, with_manager-Follows}
use dynamod.Manager.Order.Turn.{place-Follows, put_off, failed-Follows, readied-Follows, Alone}

module _ (p : Probes) (g : DependencyGraph) (shape : IsWellFormed g) where
  track-Follows :
      (x : String) (ready_fd : Option ℕ) (o : Option WorkerNode) (rest : List String) (s : StartUp)
      → Follows g (x ∷ rest) s
      → Follows g rest (track p g x ready_fd o s)
  unfolding track
  track-Follows x ready_fd none rest s v = put_off g shape x rest s v
  track-Follows x ready_fd (some w) rest s v =
      let t = wire ready_fd (Readiness.new p (instant s.manager) w.def.readiness x) in
      place-Follows g shape (is_oneshot w.def.service.service_type) (is_immediate t) x rest t
        (with_manager s (tick s.manager)) (with_manager-Follows g (x ∷ rest) s (tick s.manager) v)

  start_batch-Follows :
      (rest : List String) (s : StartUp) → Follows g rest s → Follows g [] (start_batch p g rest s)
  unfolding start_batch
  start_batch-Follows [] s v = v
  start_batch-Follows (x ∷ rest) s v =
      let (m, ready_fd) = start_worker x s.manager in
      start_batch-Follows rest _ (
        track-Follows x ready_fd (get_worker m.tree x) rest (with_manager s m)
          (with_manager-Follows g (x ∷ rest) s m v))

  pub begin_batch-Follows : (s : StartUp) → Follows g [] s → Follows g [] (begin_batch p g s)
  unfolding take_ready
  begin_batch-Follows s v =
      let inv = Reach-Inv g shape s.frontier v.reach in
      let taken = with_frontier s (take_ready s.frontier).0 in
      let queue = (take_ready s.frontier).1 in
      let follows : Follows g queue taken = record {
        reach = next s.frontier (take_ready s.frontier).0 v.reach (taking s.frontier);
        oneshots =
            λ y h. ground (arith, h, v.oneshots y, inv.queued y, pending-take_ready s.frontier y);
        tracked =
            λ y h. ground (arith, h, v.tracked y, inv.queued y, pending-take_ready s.frontier y);
        batch = λ y h. ground (arith, h, pending-take_ready s.frontier y);
        distinct = inv.distinct;
      } in
      start_batch-Follows queue taken follows

  untrack-Follows : (x : String) (s : StartUp) → Follows g [] s → Follows g [] (untrack x s)
  untrack-Follows x s v = record {
    reach = v.reach;
    oneshots = λ y h. ground (arith, h, v.oneshots y, lookup-remove x y s.readiness_trackers);
    tracked = λ y h. ground (arith, h, v.tracked y, lookup-remove x y s.readiness_trackers);
    batch = v.batch;
    distinct = v.distinct;
  }

  -- A tracked service whose tracker is taken away is one that nothing waits for.
  untrack-Alone :
      (x : String) (s : StartUp)
      → is_tracked x s ≡ true
      → Follows g [] s
      → Alone g shape x [] (untrack x s)
  unfolding Set.contains
  untrack-Alone x s h v = (
    ground (arith, h, v.oneshots x),
    ground (arith, lookup-remove x x s.readiness_trackers),
    refl,
  )

  on_result-Follows :
      (x : String) (r : ReadinessResult) (s : StartUp)
      → is_tracked x s ≡ true
      → Follows g [] s
      → Returns (Follows g []) (on_result g x r s)
  unfolding on_result
  on_result-Follows x ready s h v = (
    _,
    refl,
    readied-Follows g shape [] x (untrack x s) (untrack-Follows x s v) (v.tracked x h).0
        (untrack-Alone x s h v),
  )
  on_result-Follows x not_ready s h v = (s, refl, v)
  on_result-Follows x timed_out s h v =
      failed-Follows g shape [] x (untrack x s) (untrack-Follows x s v) (v.tracked x h).0
        (untrack-Alone x s h v)
  on_result-Follows x (failed message) s h v =
      failed-Follows g shape [] x (untrack x s) (untrack-Follows x s v) (v.tracked x h).0
        (untrack-Alone x s h v)

  poll_tracker-Follows :
      (x : String) (o : Option ReadinessTracker) (s : StartUp)
      → Map.lookup x s.readiness_trackers ≡ o
      → Follows g [] s
      → Returns (Follows g []) (poll_tracker p g x o s)
  poll_tracker-Follows x none s e v = (s, refl, v)
  poll_tracker-Follows x (some t) s e v =
      on_result-Follows x (check p (instant s.manager) t) (with_manager s (tick s.manager))
        (rw e refl) (with_manager-Follows g [] s (tick s.manager) v)

  pub poll_trackers-Follows :
      (names : List String) (s : StartUp)
      → Follows g [] s
      → Returns (Follows g []) (poll_trackers p g names s)
  unfolding poll_trackers
  poll_trackers-Follows [] s v = (s, refl, v)
  poll_trackers-Follows (x ∷ names) s v =
      Returns-bind (poll_trackers p g names) (poll_trackers-Follows names)
        (poll_tracker-Follows x (Map.lookup x s.readiness_trackers) s refl v)
