-- ===== src/Dependency/Frontier/Start.antt =====
-- `new` and `take_ready` establish and keep the invariant.
use dynamod.Common.{
  String, ◌≡◌, refl, true, false, ◌&&◌, ◌||◌, List, [], ◌∷◌, ◌++◌, some, none, arith, if◌then◌else◌,
  ◌==◌, string_key,
}
use dynamod.Common.Map
use dynamod.Common.Map.{lookup-insert}
use dynamod.Common.Set
use dynamod.Common.Set.{Distinct, contains-insert}
use dynamod.Common.Lists.{length}
use dynamod.Dependency.Graph.{DependencyGraph, dependencies_of}
use dynamod.Dependency.Graph.Shape.{IsWellFormed}
use dynamod.Dependency.Frontier.{StartupFrontier, new, new_from, take_ready, insert_all, empty}
use dynamod.Dependency.Frontier.Count.{outstanding_none}
use dynamod.Dependency.Frontier.Visit.{SameSets, contains-append, append-Distinct}
use dynamod.Dependency.Frontier.Invariant.{Inv, settled, left}

module _ (g : DependencyGraph) where
  abbrev add_service : String → StartupFrontier → StartupFrontier
  add_service service f = record f {
    unmet = Map.insert service (length (dependencies_of g service)) f.unmet;
    ready_to_start =
        if length (dependencies_of g service) == 0
        then f.ready_to_start ++ service ∷ []
        else f.ready_to_start;
  }

  sets-new_from : (l : List String) (f : StartupFrontier) → SameSets f (new_from g l f)
  unfolding new_from
  sets-new_from [] f = record { ready = refl; pending = refl; blocked = refl; completed = refl }
  sets-new_from (x ∷ l) f = ground (arith, sets-new_from l (add_service x f))

  lookup-new_from :
      (l : List String) (f : StartupFrontier) (s : String)
      → Map.lookup s (new_from g l f).unmet
        ≡ (if Set.contains s l then some (length (dependencies_of g s)) else Map.lookup s f.unmet)
  unfolding new_from Set.contains
  lookup-new_from [] f s = refl
  lookup-new_from (x ∷ l) f s = ground (
    arith,
    lookup-new_from l (add_service x f) s,
    lookup-insert x s (length (dependencies_of g x)) f.unmet,
  )

  queue-new_from :
      (l : List String) (f : StartupFrontier) (s : String)
      → Set.contains s (new_from g l f).ready_to_start ≡ (
          Set.contains s f.ready_to_start
          || (Set.contains s l && (length (dependencies_of g s) == 0)))
  unfolding new_from Set.contains
  queue-new_from [] f s = ground arith
  queue-new_from (x ∷ l) f s =
      ground (arith, queue-new_from l (add_service x f) s, contains-append s x f.ready_to_start)

  queue-new_from-Distinct :
      (l : List String) (f : StartupFrontier)
      → Distinct l
      → Distinct f.ready_to_start
      → ((s : String) → Set.contains s l ≡ true → Set.contains s f.ready_to_start ≡ false)
      → Distinct (new_from g l f).ready_to_start
  unfolding new_from Set.contains
  queue-new_from-Distinct [] f h q fresh = q
  queue-new_from-Distinct (x ∷ l) f h q fresh =
      queue-new_from-Distinct l (add_service x f) h.1
        (ground (arith, append-Distinct x f.ready_to_start, fresh x))
        (λ s j. ground (arith, fresh s, contains-append s x f.ready_to_start))

  module _ (shape : IsWellFormed g) where
    start : StartupFrontier
    start = new g

    start_sets : SameSets empty start
    unfolding start new
    start_sets = sets-new_from g.services empty

    nothing_settled : (d : String) → settled start d ≡ false
    unfolding Set.contains
    nothing_settled d = ground (arith, start_sets.completed)

    left-start : (s : String) → left g start s ≡ length (dependencies_of g s)
    left-start s = outstanding_none (settled start) (dependencies_of g s) nothing_settled

    unmet_start :
        (s : String)
        → Map.lookup s start.unmet
          ≡ (if Set.contains s g.services then some (length (dependencies_of g s)) else none)
    unfolding start new Map.lookup
    unmet_start s = lookup-new_from g.services empty s

    queue_start :
        (s : String)
        → Set.contains s start.ready_to_start
          ≡ (Set.contains s g.services && (length (dependencies_of g s) == 0))
    unfolding start new Set.contains
    queue_start s = queue-new_from g.services empty s

    start-Distinct : Distinct start.ready_to_start
    unfolding start new Set.contains
    start-Distinct =
        queue-new_from-Distinct g.services empty shape.distinct_services tt (λ s h. refl)

    start-Inv : Inv g start
    unfolding Set.contains
    start-Inv = record {
      counted = λ s known free. ground (arith, unmet_start s, left-start s);
      uncounted = λ s unknown. ground (arith, unmet_start s);
      queued = λ s h. ground (arith, queue_start s, left-start s, start_sets);
      begun = λ s h. ground (arith, start_sets.pending);
      ended = λ s h free. ground (arith, start_sets.completed);
      hard = λ s d h free e. ground (arith, nothing_settled d);
      cascade = λ s d h e. ground (arith, start_sets.blocked);
      woken = λ s known free e. ground (arith, queue_start s, left-start s);
      distinct = start-Distinct;
    }

-- The frontier of a well-formed graph starts in the invariant.
pub new-Inv : (g : DependencyGraph) → IsWellFormed g → Inv g (new g)
unfolding start
new-Inv g shape = start-Inv g shape

contains-insert_all :
    (k : String) (xs s : List String)
    → Set.contains k (insert_all xs s) ≡ (Set.contains k xs || Set.contains k s)
unfolding insert_all Set.contains
contains-insert_all k [] s = refl
contains-insert_all k (x ∷ xs) s =
    ground (arith, contains-insert_all k xs (Set.insert x s), contains-insert x k s)

-- Taking the batch of startable services keeps the invariant.
pub take_ready-Inv : (g : DependencyGraph) (f : StartupFrontier) → Inv g f → Inv g (take_ready f).0
unfolding take_ready
take_ready-Inv g f inv = record {
  counted = λ s known free. ground (arith, inv.counted s known);
  uncounted = λ s unknown. ground (arith, inv.uncounted s);
  queued = λ s h. unfold Set.contains in ground arith;
  begun = λ s h.
      ground (arith, contains-insert_all s f.ready_to_start f.pending, inv.queued s, inv.begun s);
  ended = λ s h free. inv.ended s h free;
  hard = λ s d h free e. inv.hard s d h free e;
  cascade = λ s d h e. inv.cascade s d h e;
  woken = λ s known free e.
      ground (arith, contains-insert_all s f.ready_to_start f.pending, inv.woken s known);
  distinct = tt;
}

pub pending-take_ready :
    (f : StartupFrontier) (s : String)
    → Set.contains s (take_ready f).0.pending
      ≡ (Set.contains s f.ready_to_start || Set.contains s f.pending)
unfolding take_ready
pending-take_ready f s = contains-insert_all s f.ready_to_start f.pending
