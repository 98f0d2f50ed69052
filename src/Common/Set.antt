-- ===== src/Common/Set.antt =====
-- `HashSet<K>`: a list without repeats. Its iteration order is the order of the list.
use mathlib.Core.Path.{◌≡◌, refl}
use mathlib.Core.Logic.{ite}
use mathlib.Core.Bool.{Bool, true, false}
use mathlib.Core.List.{List, [], ◌∷◌, ◌++◌}
use native.Mathlib.Omega.{arith}
use dynamod.Common.Key.{Key}

module _ {K : Type 0} ⦃key : Key K⦄ where
  unfoldable pub contains : K → List K → Bool
  contains k [] = false
  contains k (j ∷ s) = ite (key.dec j k) true (contains k s)

  unfoldable pub insert : K → List K → List K
  insert k [] = k ∷ []
  insert k (j ∷ s) = ite (key.dec j k) (j ∷ s) (j ∷ insert k s)

  unfoldable pub remove : K → List K → List K
  remove k [] = []
  remove k (j ∷ s) = let rest = remove k s in ite (key.dec j k) rest (j ∷ rest)

  pub contains-insert :
      (k j : K) (s : List K) → contains j (insert k s) ≡ ite (key.dec k j) true (contains j s)
  unfolding contains insert
  contains-insert k j [] = refl
  contains-insert k j (i ∷ s) = ground (arith, contains-insert k j s)

  pub contains-remove :
      (k j : K) (s : List K) → contains j (remove k s) ≡ ite (key.dec k j) false (contains j s)
  unfolding contains remove
  contains-remove k j [] = ground arith
  contains-remove k j (i ∷ s) = ground (arith, contains-remove k j s)

  -- No element twice.
  abbrev pub Distinct : List K → Type 0
  Distinct [] = Unit {0}
  Distinct (k ∷ s) = (contains k s ≡ false) × Distinct s

  pub insert-Distinct : (k : K) (s : List K) → Distinct s → Distinct (insert k s)
  unfolding contains insert
  insert-Distinct k [] d = (refl, tt)
  insert-Distinct k (j ∷ s) d = ground (arith, insert-Distinct k s d.1, contains-insert k j s)

  pub remove-Distinct : (k : K) (s : List K) → Distinct s → Distinct (remove k s)
  unfolding contains remove
  remove-Distinct k [] d = tt
  remove-Distinct k (j ∷ s) d = ground (arith, remove-Distinct k s d.1, contains-remove k j s)

  pub contains-push :
      (k j : K) (s : List K) → contains j (s ++ k ∷ []) ≡ ite (key.dec k j) true (contains j s)
  unfolding contains
  contains-push k j [] = refl
  contains-push k j (i ∷ s) = ground (arith, contains-push k j s)
