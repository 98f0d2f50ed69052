-- ===== src/Common/Map.antt =====
-- `HashMap<K, V>`: an association list. Its iteration order, which Rust leaves open, is the
-- order of the list.
use mathlib.Core.Path.{◌≡◌, refl}
use mathlib.Core.Logic.{ite}
use mathlib.Core.Option
use mathlib.Core.Option.{Option, none, some}
use mathlib.Core.List.{List, [], ◌∷◌}
use native.Mathlib.Omega.{arith}
use dynamod.Common.Key.{Key}

abbrev pub Map : Type 0 → Type 0 → Type 0
Map K V = List (K × V)

module _ {K V : Type 0} ⦃key : Key K⦄ where
  unfoldable pub lookup : K → Map K V → Option V
  lookup k [] = none
  lookup k ((j, v) ∷ m) = ite (key.dec j k) (some v) (lookup k m)

  unfoldable pub insert : K → V → Map K V → Map K V
  insert k v [] = (k, v) ∷ []
  insert k v ((j, w) ∷ m) = ite (key.dec j k) ((k, v) ∷ m) ((j, w) ∷ insert k v m)

  unfoldable pub remove : K → Map K V → Map K V
  remove k [] = []
  remove k ((j, w) ∷ m) = let rest = remove k m in ite (key.dec j k) rest ((j, w) ∷ rest)

  -- `if let Some(v) = map.get_mut(k) { *v = f(v) }`
  unfoldable pub adjust : K → (V → V) → Map K V → Map K V
  adjust k f [] = []
  adjust k f ((j, w) ∷ m) = ite (key.dec j k) ((j, f w) ∷ m) ((j, w) ∷ adjust k f m)

  pub lookup-insert :
      (k j : K) (v : V) (m : Map K V)
      → lookup j (insert k v m) ≡ ite (key.dec k j) (some v) (lookup j m)
  unfolding lookup insert
  lookup-insert k j v [] = refl
  lookup-insert k j v ((i, w) ∷ m) = ground (arith, lookup-insert k j v m)

  pub lookup-remove :
      (k j : K) (m : Map K V) → lookup j (remove k m) ≡ ite (key.dec k j) none (lookup j m)
  unfolding lookup remove
  lookup-remove k j [] = ground arith
  lookup-remove k j ((i, w) ∷ m) = ground (arith, lookup-remove k j m)

  pub lookup-adjust :
      (k j : K) (f : V → V) (m : Map K V)
      → lookup j (adjust k f m) ≡ ite (key.dec k j) (Option.map f (lookup j m)) (lookup j m)
  unfolding lookup adjust
  lookup-adjust k j f [] = ground arith
  lookup-adjust k j f ((i, w) ∷ m) = ground (arith, lookup-adjust k j f m)

  -- A write of the value that is there changes nothing.
  pub adjust_fixed :
      (k : K) (f : V → V) (m : Map K V) → Option.map f (lookup k m) ≡ lookup k m → adjust k f m ≡ m
  unfolding lookup adjust
  adjust_fixed k f [] h = refl
  adjust_fixed k f ((i, w) ∷ m) h = ground (arith, adjust_fixed k f m)
