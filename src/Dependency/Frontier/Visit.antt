-- ===== src/Dependency/Frontier/Visit.antt =====
-- The loops over dependents: what they do to the counts and to the queue.
use dynamod.Common.{
  ℕ, ◌-◌, String, ◌≡◌, refl, Bool, true, false, ◌&&◌, ◌||◌, List, [], ◌∷◌, ◌++◌, Option, none, some,
  arith, if◌then◌else◌, ◌==◌, string_key,
}
use mathlib.Core.Option
use dynamod.Common.Map
use dynamod.Common.Map.{lookup-adjust}
use dynamod.Common.Set
use dynamod.Common.Set.{Distinct}
use dynamod.Dependency.Graph.Shape.{same}
use dynamod.Dependency.Frontier.{StartupFrontier, decrement, visit}

pub record SameSets (f f' : StartupFrontier) : Type 0 where
  pub ready : f'.ready ≡ f.ready
  pub pending : f'.pending ≡ f.pending
  pub blocked : f'.blocked ≡ f.blocked
  pub completed : f'.completed ≡ f.completed

abbrev pub pred_of : Option ℕ → Option ℕ
pred_of = Option.map (λ c. c - 1)

-- The count is zero after a decrement.
abbrev pub reaches_zero : Option ℕ → Bool
reaches_zero none = false
reaches_zero (some c) = c - 1 == 0

pub contains-append :
    (k x : String) (xs : List String)
    → Set.contains k (xs ++ x ∷ []) ≡ (Set.contains k xs || same x k)
unfolding Set.contains
contains-append k x [] = ground arith
contains-append k x (y ∷ xs) = ground (arith, contains-append k x xs)

pub append-Distinct :
    (x : String) (xs : List String)
    → Set.contains x xs ≡ false
    → Distinct xs
    → Distinct (xs ++ x ∷ [])
unfolding Set.contains
append-Distinct x [] h d = (refl, tt)
append-Distinct x (y ∷ xs) h d = ground (arith, append-Distinct x xs, contains-append y x xs)

-- One decrement.
module _ (open_to : Bool) (d : String) (f : StartupFrontier) where
  decrement-SameSets : SameSets f (decrement open_to d f)
  unfolding decrement
  decrement-SameSets = ground arith

  lookup-decrement :
      (s : String)
      → Map.lookup s (decrement open_to d f).unmet
        ≡ (if same d s then pred_of (Map.lookup s f.unmet) else Map.lookup s f.unmet)
  unfolding decrement
  lookup-decrement s = ground (arith, lookup-adjust d s (λ c. c - 1) f.unmet)

  queue-decrement :
      (s : String)
      → Set.contains s (decrement open_to d f).ready_to_start ≡ (
          Set.contains s f.ready_to_start
          || (same d s && (reaches_zero (Map.lookup d f.unmet) && open_to)))
  unfolding decrement
  queue-decrement s = ground (arith, contains-append s d f.ready_to_start)

  queue-decrement-Distinct :
      Distinct f.ready_to_start
      → ((reaches_zero (Map.lookup d f.unmet) && open_to) ≡ true
          → Set.contains d f.ready_to_start ≡ false)
      → Distinct (decrement open_to d f).ready_to_start
  unfolding decrement
  queue-decrement-Distinct h fresh = ground (arith, append-Distinct d f.ready_to_start)

-- A test that looks at the four sets only.
abbrev Stable : (String → StartupFrontier → Bool) → Type 0
Stable test = (s : String) (f f' : StartupFrontier) → SameSets f f' → test s f' ≡ test s f

SameSets-refl : (f : StartupFrontier) → SameSets f f
SameSets-refl f = record { ready = refl; pending = refl; blocked = refl; completed = refl }

module _ (active open_to : String → StartupFrontier → Bool) (active_stable : Stable active)
    (open_stable : Stable open_to) where
  abbrev visit_one : String → StartupFrontier → StartupFrontier
  visit_one d f = if active d f then decrement (open_to d f) d f else f

  visit_one-SameSets : (d : String) (f : StartupFrontier) → SameSets f (visit_one d f)
  visit_one-SameSets d f = ground (arith, decrement-SameSets (open_to d f) d f)

  pub visit-SameSets :
      (ds : List String) (f : StartupFrontier) → SameSets f (visit active open_to ds f)
  unfolding visit
  visit-SameSets [] f = SameSets-refl f
  visit-SameSets (d ∷ ds) f =
      ground (arith, visit_one-SameSets d f, visit-SameSets ds (visit_one d f))

  -- Each listed service for which `active` holds has one dependency fewer.
  pub lookup-visit :
      (ds : List String) (f : StartupFrontier)
      → Distinct ds
      → (s : String)
      → Map.lookup s (visit active open_to ds f).unmet ≡ (
          if Set.contains s ds && active s f
          then pred_of (Map.lookup s f.unmet)
          else Map.lookup s f.unmet)
  unfolding visit Set.contains
  lookup-visit [] f h s = refl
  lookup-visit (d ∷ ds) f h s = ground (
    arith,
    lookup-visit ds (visit_one d f) h.1 s,
    lookup-decrement (open_to d f) d f s,
    active_stable s f (visit_one d f) (visit_one-SameSets d f),
  )

  abbrev joins : List String → StartupFrontier → String → Bool
  joins ds f s =
      Set.contains s ds && (active s f && (reaches_zero (Map.lookup s f.unmet) && open_to s f))

  -- Those whose count reaches zero are queued, if `open_to` holds of them.
  pub queue-visit :
      (ds : List String) (f : StartupFrontier)
      → Distinct ds
      → (s : String)
      → Set.contains s (visit active open_to ds f).ready_to_start
        ≡ (Set.contains s f.ready_to_start || joins ds f s)
  unfolding visit Set.contains
  queue-visit [] f h s = ground arith
  queue-visit (d ∷ ds) f h s = ground (
    arith,
    queue-visit ds (visit_one d f) h.1 s,
    queue-decrement (open_to d f) d f s,
    lookup-decrement (open_to d f) d f s,
    active_stable s f (visit_one d f) (visit_one-SameSets d f),
    open_stable s f (visit_one d f) (visit_one-SameSets d f),
  )

  pub queue-visit-Distinct :
      (ds : List String) (f : StartupFrontier)
      → Distinct ds
      → Distinct f.ready_to_start
      → ((s : String) → joins ds f s ≡ true → Set.contains s f.ready_to_start ≡ false)
      → Distinct (visit active open_to ds f).ready_to_start
  unfolding visit Set.contains
  queue-visit-Distinct [] f h q fresh = q
  queue-visit-Distinct (d ∷ ds) f h q fresh =
      queue-visit-Distinct ds (visit_one d f) h.1
        (ground (arith, queue-decrement-Distinct (open_to d f) d f q, fresh d))
        (λ s j. ground (
          arith,
          fresh s,
          queue-decrement (open_to d f) d f s,
          lookup-decrement (open_to d f) d f s,
          active_stable s f (visit_one d f) (visit_one-SameSets d f),
          open_stable s f (visit_one d f) (visit_one-SameSets d f),
        ))
