-- ===== src/Dependency/Frontier/Count.antt =====
-- Counting the elements of a set that a predicate does not yet hold of.
use dynamod.Common.{
  ℕ, suc, ◌<◌, String, ◌≡◌, Bool, true, false, ◌||◌, List, [], ◌∷◌, arith, if◌then◌else◌,
  string_key,
}
use dynamod.Common.Set
use dynamod.Common.Set.{Distinct}
use dynamod.Common.Lists.{length}
use dynamod.Dependency.Graph.Shape.{same}

pub outstanding : (String → Bool) → List String → ℕ
outstanding settled [] = 0
outstanding settled (d ∷ ds) =
    let rest = outstanding settled ds in if settled d then rest else suc rest

pub outstanding_pos :
    (settled : String → Bool) (d : String) (ds : List String)
    → Set.contains d ds ≡ true
    → settled d ≡ false
    → 0 < outstanding settled ds
unfolding outstanding Set.contains
outstanding_pos settled d [] h e = cc
outstanding_pos settled d (x ∷ ds) h e = ground (arith, outstanding_pos settled d ds)

pub settled_of_zero :
    (settled : String → Bool) (d : String) (ds : List String)
    → outstanding settled ds ≡ 0
    → Set.contains d ds ≡ true
    → settled d ≡ true
unfolding outstanding Set.contains
settled_of_zero settled d [] h e = cc
settled_of_zero settled d (x ∷ ds) h e = ground (arith, settled_of_zero settled d ds)

pub zero_of_settled :
    (settled : String → Bool) (ds : List String)
    → ((d : String) → Set.contains d ds ≡ true → settled d ≡ true)
    → outstanding settled ds ≡ 0
unfolding outstanding Set.contains
zero_of_settled settled [] all = omega arith
zero_of_settled settled (x ∷ ds) all =
    ground (arith, all x, zero_of_settled settled ds (λ d h. all d (ground (arith, h))))

pub outstanding_none :
    (settled : String → Bool) (ds : List String)
    → ((d : String) → settled d ≡ false)
    → outstanding settled ds ≡ length ds
unfolding outstanding
outstanding_none settled [] h = omega arith
outstanding_none settled (x ∷ ds) h = ground (arith, h x, outstanding_none settled ds h)

-- A predicate that gains one element `x`, in a set without repeats.
pub outstanding_settle :
    (settled later : String → Bool) (x : String) (ds : List String)
    → Distinct ds
    → settled x ≡ false
    → ((d : String) → later d ≡ (same x d || settled d))
    → outstanding settled ds
      ≡ (if Set.contains x ds then suc (outstanding later ds) else outstanding later ds)
unfolding outstanding Set.contains
outstanding_settle settled later x [] h e gain = ground arith
outstanding_settle settled later x (d ∷ ds) h e gain =
    ground (arith, gain d, outstanding_settle settled later x ds h.1 e gain)

pub outstanding_same :
    (settled later : String → Bool) (ds : List String)
    → ((d : String) → later d ≡ settled d)
    → outstanding later ds ≡ outstanding settled ds
unfolding outstanding
outstanding_same settled later [] h = omega arith
outstanding_same settled later (d ∷ ds) h = ground (arith, h d, outstanding_same settled later ds h)
