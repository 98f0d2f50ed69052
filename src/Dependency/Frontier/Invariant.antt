-- ===== src/Dependency/Frontier/Invariant.antt =====
-- What holds of the frontier between two calls, while services end one by one.
use dynamod.Common.{ℕ, String, ◌≡◌, Bool, true, false, not, ◌&&◌, ◌||◌, some, none, string_key}
use dynamod.Common.Map
use dynamod.Common.Set
use dynamod.Common.Set.{Distinct}
use dynamod.Dependency.Graph.{DependencyGraph, dependencies_of, requires_of}
use dynamod.Dependency.Frontier.{StartupFrontier}
use dynamod.Dependency.Frontier.Count.{outstanding}

-- A service that was marked ready or failed, as opposed to one that was blocked.
abbrev pub settled : StartupFrontier → String → Bool
settled f d = Set.contains d f.completed && not (Set.contains d f.blocked)

-- The dependencies of `s` that are not settled.
abbrev pub left : DependencyGraph → StartupFrontier → String → ℕ
left g f s = outstanding (settled f) (dependencies_of g s)

pub record Inv (g : DependencyGraph) (f : StartupFrontier) : Type 0 where
  pub counted :
      (s : String)
      → Set.contains s g.services ≡ true
      → Set.contains s f.blocked ≡ false
      → Map.lookup s f.unmet ≡ some (left g f s)
  pub uncounted : (s : String) → Set.contains s g.services ≡ false → Map.lookup s f.unmet ≡ none
  pub queued :
      (s : String)
      → Set.contains s f.ready_to_start ≡ true
      → (Set.contains s g.services ≡ true)
        × (Set.contains s f.blocked ≡ false)
        × (Set.contains s f.completed ≡ false)
        × (Set.contains s f.pending ≡ false)
        × (left g f s ≡ 0)
  pub begun :
      (s : String)
      → Set.contains s f.pending ≡ true
      → (Set.contains s g.services ≡ true)
        × (Set.contains s f.blocked ≡ false)
        × (Set.contains s f.completed ≡ false)
        × (left g f s ≡ 0)
  pub ended :
      (s : String)
      → Set.contains s f.completed ≡ true
      → Set.contains s f.blocked ≡ false
      → left g f s ≡ 0
  pub hard :
      (s d : String)
      → Set.contains d (requires_of g s) ≡ true
      → Set.contains s f.blocked ≡ false
      → settled f d ≡ true
      → Set.contains d f.ready ≡ true
  pub cascade :
      (s d : String)
      → Set.contains d (requires_of g s) ≡ true
      → Set.contains d f.blocked ≡ true
      → Set.contains s f.blocked ≡ true
  pub woken :
      (s : String)
      → Set.contains s g.services ≡ true
      → Set.contains s f.blocked ≡ false
      → left g f s ≡ 0
      → (Set.contains s f.ready_to_start
          || (Set.contains s f.pending || Set.contains s f.completed))
        ≡ true
  pub distinct : Distinct f.ready_to_start
