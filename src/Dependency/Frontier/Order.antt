-- ===== src/Dependency/Frontier/Order.antt =====
-- Start-up as a sequence of calls on the frontier, and the order that it keeps.
use dynamod.Common.{String, ◌≡◌, Bool, true, false, ◌||◌, List, some, arith, string_key}
use dynamod.Common.Set
use dynamod.Common.Set.{Distinct}
use dynamod.Config.Service.{ServiceDef}
use dynamod.Dependency.Graph.{DependencyGraph, build, dependencies_of, requires_of}
use dynamod.Dependency.Graph.Build.{declared, declared_requires}
use dynamod.Dependency.Graph.Declared.{build-IsWellFormed, build-declared, named}
use dynamod.Dependency.Graph.Shape.{IsWellFormed}
use dynamod.Dependency.Frontier.{StartupFrontier, new, take_ready, mark_ready, mark_failed}
use dynamod.Dependency.Frontier.Count.{settled_of_zero, zero_of_settled}
use dynamod.Dependency.Frontier.Invariant.{Inv, settled, left}
use dynamod.Dependency.Frontier.Start.{new-Inv, take_ready-Inv}
use dynamod.Dependency.Frontier.Ready.{mark_ready-Inv}
use dynamod.Dependency.Frontier.Failed.{mark_failed-Inv}

-- One call on the frontier. A service is marked while it is running, once.
pub data Step (g : DependencyGraph) : StartupFrontier → StartupFrontier → Type 0 where
  taking : (f : StartupFrontier) → Step g f (take_ready f).0
  readied :
      (x : String) (f : StartupFrontier)
      → Set.contains x f.pending ≡ true
      → Step g f (mark_ready x g f)
  failed :
      (x : String) (f r : StartupFrontier)
      → Set.contains x f.pending ≡ true
      → mark_failed x g f ≡ some r
      → Step g f r

-- The frontiers of a start-up.
pub data Reach (g : DependencyGraph) : StartupFrontier → Type 0 where
  started : Reach g (new g)
  next : (f f' : StartupFrontier) → Reach g f → Step g f f' → Reach g f'

Step-Inv :
    (g : DependencyGraph)
    → IsWellFormed g
    → (f f' : StartupFrontier) → Inv g f
    → Step g f f'
    → Inv g f'
Step-Inv g shape _ _ inv (taking f) = take_ready-Inv g f inv
Step-Inv g shape _ _ inv (readied x f running) = mark_ready-Inv x g f shape inv running
Step-Inv g shape _ _ inv (failed x f r running returns) =
    mark_failed-Inv x g f r shape inv running returns

-- Every frontier of a start-up from any definitions satisfies the invariant.
pub Reach-Inv : (g : DependencyGraph) → IsWellFormed g → (f : StartupFrontier) → Reach g f → Inv g f
Reach-Inv g shape _ started = new-Inv g shape
Reach-Inv g shape _ (next f0 f reach step) = Step-Inv g shape f0 f (Reach-Inv g shape f0 reach) step

module _ (defs : List ServiceDef) (f : StartupFrontier) (reach : Reach (build defs) f) where
  inv : Inv (build defs) f
  inv = Reach-Inv (build defs) (build-IsWellFormed defs) f reach

  abbrev waiting_or_running : String → Bool
  waiting_or_running s = Set.contains s f.ready_to_start || Set.contains s f.pending

  nothing_left :
      (s : String)
      → waiting_or_running s ≡ true
      → (Set.contains s f.blocked ≡ false) × (left (build defs) f s ≡ 0)
  nothing_left s h = ground (arith, inv.queued s, inv.begun s)

  -- Start-up keeps the declared order: in every frontier that calls lead to, starting with `new` on
  -- the graph of any definitions, when a service is queued to start or is starting, each service
  -- that it waits for has been marked ready or failed, and is not blocked.
  pub starts_in_order :
      (s d : String)
      → waiting_or_running s ≡ true
      → declared defs (build defs).services s d ≡ true
      → (Set.contains d f.completed ≡ true) × (Set.contains d f.blocked ≡ false)
  starts_in_order s d h e =
      let ready = nothing_left s h in
      let edge : Set.contains d (dependencies_of (build defs) s) ≡ true =
        ground (arith, (build-declared defs).1 s d) in
      let done = settled_of_zero (settled f) d (dependencies_of (build defs) s) ready.1 edge in
      (ground arith, ground arith)

  -- In every frontier of a start-up, when a service is queued to start or is starting, each service
  -- that it requires has been marked ready: none of them failed.
  pub requirements_are_ready :
      (s d : String)
      → waiting_or_running s ≡ true
      → declared_requires defs (build defs).services s d ≡ true
      → Set.contains d f.ready ≡ true
  requirements_are_ready s d h e =
      let ready = nothing_left s h in
      let required : Set.contains d (requires_of (build defs) s) ≡ true =
        ground (arith, (build-declared defs).2 s d) in
      let edge = (build-IsWellFormed defs).required s d required in
      inv.hard s d required ready.0
        (settled_of_zero (settled f) d (dependencies_of (build defs) s) ready.1 edge)

  -- No service is forgotten: in every frontier of a start-up, a service that is not blocked and all
  -- of whose dependencies are settled (marked ready or failed, and not blocked) is queued, starting,
  -- or done.
  pub none_forgotten :
      (s : String)
      → named s defs ≡ true
      → Set.contains s f.blocked ≡ false
      → ((d : String) → declared defs (build defs).services s d ≡ true → settled f d ≡ true)
      → (Set.contains s f.ready_to_start
          || (Set.contains s f.pending || Set.contains s f.completed))
        ≡ true
  none_forgotten s known free all = inv.woken s (ground (arith, (build-declared defs).0 s)) free (
      zero_of_settled (settled f) (dependencies_of (build defs) s)
        (λ d h. all d (ground (arith, (build-declared defs).1 s d))))

  -- Failure spreads along requirements: in every frontier of a start-up, a service that requires a
  -- blocked one is blocked, and is neither queued nor starting.
  pub failure_spreads :
      (s d : String)
      → declared_requires defs (build defs).services s d ≡ true
      → Set.contains d f.blocked ≡ true
      → (Set.contains s f.blocked ≡ true) × (waiting_or_running s ≡ false)
  failure_spreads s d e h =
      let stopped = inv.cascade s d (ground (arith, (build-declared defs).2 s d)) h in
      (stopped, ground (arith, inv.queued s, inv.begun s))

  -- A batch that is taken in a frontier of a start-up has no repeats, and a service in it has a
  -- definition and is neither starting nor done nor blocked already: no service is started twice.
  pub takes_fresh_services :
      (s : String)
      → Set.contains s (take_ready f).1 ≡ true
      → Distinct (take_ready f).1
        × (named s defs ≡ true)
        × (Set.contains s f.pending ≡ false)
        × (Set.contains s f.completed ≡ false)
        × (Set.contains s f.blocked ≡ false)
  unfolding take_ready
  takes_fresh_services s h = ground (arith, inv.distinct, inv.queued s h, (build-declared defs).0 s)
