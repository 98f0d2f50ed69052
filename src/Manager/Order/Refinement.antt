-- ===== src/Manager/Order/Refinement.antt =====
-- The loop that starts the services implements a start-up of the frontier.
use dynamod.Common.{
  String, ◌≡◌, sym, subst, ◌∙◌, Bool, true, false, ◌||◌, List, [], some, arith, string_key,
}
use dynamod.Common.Map
use dynamod.Common.Set
use dynamod.Config.Service.{ServiceDef}
use dynamod.Dependency.Frontier.Order.{Reach, started, starts_in_order, requirements_are_ready}
use dynamod.Dependency.Graph.{DependencyGraph, build}
use dynamod.Dependency.Graph.Build.{declared, declared_requires}
use dynamod.Dependency.Graph.Declared.{build-IsWellFormed}
use dynamod.Dependency.Graph.Shape.{IsWellFormed}
use dynamod.Process.Readiness.{Probes}
use dynamod.Manager.World.{Manager}
use dynamod.Manager.Preserved.{Returns, Returns-bind}
use dynamod.Manager.Startup.{StartUp, initial, with_manager, startup_turn, begin_batch, keys}
use dynamod.Manager.Order.{Follows, is_tracked, with_manager-Follows}
use dynamod.Manager.Order.Loop.{begin_batch-Follows, poll_trackers-Follows}
use dynamod.Manager.Order.Ends.{reap_oneshots_during_startup-Follows}

-- The states of the loop. Between two turns control requests change the manager in any way.
pub data Looping (g : DependencyGraph) : StartUp → Type 0 where
  begun : (m : Manager) → Looping g (initial g m)
  turned : (p : Probes) (s r : StartUp) → Looping g s → startup_turn p g s ≡ some r → Looping g r
  served : (s : StartUp) (m : Manager) → Looping g s → Looping g (with_manager s m)

module _ (g : DependencyGraph) (shape : IsWellFormed g) where
  initial-Follows : (m : Manager) → Follows g [] (initial g m)
  unfolding initial Set.contains Map.lookup
  initial-Follows m = record {
    reach = started;
    oneshots = λ y h. absurd (ground (arith, h));
    tracked = λ y h. absurd (ground (arith, h));
    batch = λ y h. absurd (ground (arith, h));
    distinct = tt;
  }

  startup_turn-Follows :
      (p : Probes) (s : StartUp) → Follows g [] s → Returns (Follows g []) (startup_turn p g s)
  unfolding startup_turn
  startup_turn-Follows p s v =
      Returns-bind _
        (λ r v'.
          poll_trackers-Follows p g shape (keys (begin_batch p g r).readiness_trackers)
            (begin_batch p g r) (begin_batch-Follows p g shape r v'))
        (reap_oneshots_during_startup-Follows g shape s v)

  Looping-Follows : (s : StartUp) → Looping g s → Follows g [] s
  Looping-Follows _ (begun m) = initial-Follows m
  Looping-Follows _ (served s m l) = with_manager-Follows g [] s m (Looping-Follows s l)
  Looping-Follows _ (turned p s r l e) =
      let (r', e', v) = startup_turn-Follows p s (Looping-Follows s l) in
      same_result r' r (sym e' ∙ e) v
    where
      same_result : (a b : StartUp) → some a ≡ some b → Follows g [] a → Follows g [] b
      same_result a b h v = subst (Follows g []) (cc) v

module _ (defs : List ServiceDef) (s : StartUp) (loop : Looping (build defs) s) where
  follows : Follows (build defs) [] s
  follows = Looping-Follows (build defs) (build-IsWellFormed defs) s loop

  -- In every state of the loop that starts the services of any definitions, the next turn returns,
  -- whatever the system answers, where the ends of children that `waitpid` reports are finitely many;
  -- and the frontier is one that a start-up of the graph reaches by the
  -- calls that `Order` allows, where a service is marked only while it is starting, and once.
  pub startup_turn_refines :
      (p : Probes)
      → Reach (build defs) s.frontier
        × ((r : StartUp) × (startup_turn p (build defs) s ≡ some r) × Reach (build defs) r.frontier)
  startup_turn_refines p =
      let (r, e, v) = startup_turn-Follows (build defs) (build-IsWellFormed defs) p s follows in
      (follows.reach, (r, e, v.reach))

  abbrev awaited : String → Bool
  awaited x = is_tracked x s || Set.contains x s.pending_oneshots

  starting :
      (x : String)
      → awaited x ≡ true
      → (Set.contains x s.frontier.ready_to_start || Set.contains x s.frontier.pending) ≡ true
  starting x h = ground (arith, h, follows.oneshots x, follows.tracked x)

  -- In every state of the loop that starts the services of any definitions, each service that the
  -- definitions put before one that the loop waits for, be it for readiness or for the end of a
  -- oneshot, has been marked ready or failed and is not blocked.
  pub awaited_in_order :
      (x d : String)
      → awaited x ≡ true
      → declared defs (build defs).services x d ≡ true
      → (Set.contains d s.frontier.completed ≡ true) × (Set.contains d s.frontier.blocked ≡ false)
  awaited_in_order x d h = starts_in_order defs s.frontier follows.reach x d (starting x h)

  -- In every state of the loop that starts the services of any definitions, each service that is
  -- required by one that the loop waits for has been marked ready: none of them failed.
  pub awaited_requirements :
      (x d : String)
      → awaited x ≡ true
      → declared_requires defs (build defs).services x d ≡ true
      → Set.contains d s.frontier.ready ≡ true
  awaited_requirements x d h =
      requirements_are_ready defs s.frontier follows.reach x d (starting x h)
