-- ===== src/Supervisor/Strategy/Affected.antt =====
-- Which children a strategy stops and starts.
use dynamod.Common.{
  ℕ, suc, ◌≡◌, refl, true, false, List, [], ◌∷◌, ◌++◌, some, reverse, ap, arith, string_discrete,
  string_key,
}
use dynamod.Common.Lists.{drop}
use dynamod.Common.Set
use dynamod.Config.Supervisor.{RestartStrategy, one_for_one, one_for_all, rest_for_one}
use dynamod.Supervisor.Tree.{NodeId, position}
use dynamod.Supervisor.Strategy.{dispatch, apply_one_for_one, apply_one_for_all, apply_rest_for_one}

-- The list of children, cut at the child that exited.
pub record Cut (children : List NodeId) (failed : NodeId) : Type 0 where
  pub earlier : List NodeId
  pub later : List NodeId
  pub whole : children ≡ earlier ++ failed ∷ later
  pub first : Set.contains failed earlier ≡ false

-- The children that the strategy restarts, in start order, and those that it stops first.
abbrev pub restarted :
    RestartStrategy → {children : List NodeId} {failed : NodeId} → Cut children failed → List NodeId
restarted one_for_one {failed} cut = failed ∷ []
restarted one_for_all {failed} cut = cut.earlier ++ failed ∷ cut.later
restarted rest_for_one {failed} cut = failed ∷ cut.later

abbrev pub stopped_first :
    RestartStrategy → {children : List NodeId} {failed : NodeId} → Cut children failed → List NodeId
stopped_first one_for_one cut = []
stopped_first one_for_all {failed} cut = reverse (cut.earlier ++ failed ∷ cut.later)
stopped_first rest_for_one {failed} cut = reverse (failed ∷ cut.later)

-- A child on the list cuts it, and `position` finds the cut.
pub Cut-at :
    (children : List NodeId) (failed : NodeId)
    → Set.contains failed children ≡ true
    → (cut : Cut children failed) × (i : ℕ) × (position failed children ≡ some i)
      × (drop i children ≡ failed ∷ cut.later)
unfolding Set.contains position drop
Cut-at [] failed h = cc
Cut-at (c ∷ cs) failed h = elim (string_discrete c failed) [
  | yes e ↦ (
    record { earlier = []; later = cs; whole = ground arith; first = refl },
    0,
    ground arith,
    ground arith,
  )
  | no e ↦
      let (cut, i, found, dropped) = Cut-at cs failed (ground arith) in
      (
        record {
          earlier = c ∷ cut.earlier;
          later = cut.later;
          whole = ap (◌∷◌ c) cut.whole;
          first = ground (arith, cut.first);
        },
        suc i,
        ground arith,
        dropped,
      )
]

-- For a child on the list, the strategy restarts and stops what it is documented to: the child
-- alone, all children, or the child and those started after it; it starts in start order and
-- stops in reverse order.
pub dispatch-restarted :
    (strategy : RestartStrategy) (children : List NodeId) (failed : NodeId)
    → Set.contains failed children ≡ true
    → (cut : Cut children failed) × (dispatch strategy children failed ≡ record {
      to_stop = stopped_first strategy cut;
      to_start = restarted strategy cut;
      supervisor_failed = false;
    })
unfolding dispatch apply_one_for_one apply_one_for_all apply_rest_for_one
dispatch-restarted one_for_one children failed h =
    let (cut, i, found, dropped) = Cut-at children failed h in (cut, refl)
dispatch-restarted one_for_all children failed h =
    let (cut, i, found, dropped) = Cut-at children failed h in (cut, ground (arith, cut.whole))
dispatch-restarted rest_for_one children failed h =
    let (cut, i, found, dropped) = Cut-at children failed h in (cut, ground (arith, found, dropped))
