-- ===== src/Common/Key.antt =====
-- Types whose values can be compared, as the keys of a `HashMap` are.
use Prim.Native.Nat.{ℕ}
use Prim.Native.String.{String}
use mathlib.Core.Path.{◌≡◌}
use mathlib.Core.Bool.{Bool, true, false, false≢true}
use text.Mathlib.Text.{◌==◌}
use text.Mathlib.TextEquality.{eq_iff}
use native.Mathlib.Decide.{ℕ_discrete}
use mathlib.Core.Logic.{◌↔◌}

-- A decision from a test.
decide_by {ℓ} : {P : Type ℓ} (b : Bool) → (b ≡ true) ↔ P → Dec P
decide_by true e = yes (e.0 (λ i. true))
decide_by false e = no (λ p. false≢true (e.1 p))

unfoldable pub string_discrete : Discrete String
unfolding decide_by
string_discrete s t = decide_by (s == t) (eq_iff s t)

pub record Key (K : Type 0) : Type 0 where
  pub dec : Discrete K

instance abbrev pub string_key : Key String
string_key = record { dec = string_discrete }

instance abbrev pub nat_key : Key ℕ
nat_key = record { dec = ℕ_discrete }
