-- ===== src/Manager/Order.antt =====
-- The loop that starts services uses the frontier as a start-up does.
pub mod Turn
pub mod Loop
pub mod Ends
pub mod Refinement
use dynamod.Common.{
  ℕ, zero, suc, ◌≤◌, String, ◌≡◌, refl, sym, subst, Bool, true, false, not, ◌&&◌, List, [], ◌∷◌,
  Option, none, some, arith, Option-cases, Bool-cases, inl, inr, string_key,
}
use mathlib.Core.Option
use dynamod.Common.Map
use dynamod.Common.Map.{Map, lookup-insert, lookup-remove}
use dynamod.Common.Set
use dynamod.Common.Set.{Distinct, contains-insert, contains-remove}
use dynamod.Dependency.Frontier.{StartupFrontier, take_ready, mark_ready, mark_failed}
use dynamod.Dependency.Frontier.Failed.{mark_failed-returns, pending-mark_failed}
use dynamod.Dependency.Frontier.Invariant.{Inv}
use dynamod.Dependency.Frontier.Order.{
  Reach, started, next, Step, taking, readied, failed, Reach-Inv,
}
use dynamod.Dependency.Frontier.Ready.{pending-mark_ready}
use dynamod.Dependency.Frontier.Start.{pending-take_ready}
use dynamod.Dependency.Graph.{DependencyGraph}
use dynamod.Dependency.Graph.Shape.{IsWellFormed, same}
use dynamod.Process.Readiness.{ReadinessTracker}
use dynamod.Manager.World.{Manager}
use dynamod.Manager.Startup.{StartUp, with_manager, with_frontier, untrack}

abbrev is_some : Option ReadinessTracker → Bool
is_some none = false
is_some (some t) = true

abbrev pub is_tracked : String → StartUp → Bool
is_tracked x s = is_some (Map.lookup x s.readiness_trackers)

-- The frontier is one of a start-up, and what the loop waits for, and the `rest` of the batch, are
-- services that the frontier counts as starting, each in one way.
pub record Follows (g : DependencyGraph) (rest : List String) (s : StartUp) : Type 0 where
  pub reach : Reach g s.frontier
  pub oneshots :
      (x : String)
      → Set.contains x s.pending_oneshots ≡ true
      → (Set.contains x s.frontier.pending ≡ true)
        × (is_tracked x s ≡ false)
        × (Set.contains x rest ≡ false)
  pub tracked :
      (x : String)
      → is_tracked x s ≡ true
      → (Set.contains x s.frontier.pending ≡ true) × (Set.contains x rest ≡ false)
  pub batch : (x : String) → Set.contains x rest ≡ true → Set.contains x s.frontier.pending ≡ true
  pub distinct : Distinct rest

pub with_manager-Follows :
    (g : DependencyGraph) (rest : List String) (s : StartUp) (m : Manager)
    → Follows g rest s
    → Follows g rest (with_manager s m)
with_manager-Follows g rest s m v = record {
  reach = v.reach;
  oneshots = v.oneshots;
  tracked = v.tracked;
  batch = v.batch;
  distinct = v.distinct;
}

-- A service that nothing else waits for is no longer starting.
pub settle :
    (g : DependencyGraph) (rest : List String) (x : String) (s : StartUp) (f : StartupFrontier)
    → Follows g rest s
    → Reach g f
    → ((y : String)
        → Set.contains y f.pending ≡ (not (same x y) && Set.contains y s.frontier.pending))
    → Set.contains x s.pending_oneshots ≡ false
    → is_tracked x s ≡ false
    → Set.contains x rest ≡ false
    → Follows g rest (with_frontier s f)
settle g rest x s f v reach pending alone untracked out = record {
  reach = reach;
  oneshots = λ y h. ground (arith, pending y, v.oneshots y h, alone, h);
  tracked = λ y h. ground (arith, pending y, v.tracked y h, untracked, h);
  batch = λ y h. ground (arith, pending y, v.batch y h, out, h);
  distinct = v.distinct;
}
