-- ===== src/Dependency/Frontier.antt =====
-- rust/dynamod-svmgr/src/dependency/frontier.rs: which services may start now.
pub mod Count
pub mod Visit
pub mod Invariant
pub mod Ready
pub mod Start
pub mod Failed
pub mod Order
pub mod Blocking
use dynamod.Common.{
  ℕ, zero, suc, ◌+◌, ◌-◌, String, Bool, true, false, not, ◌&&◌, List, [], ◌∷◌, ◌++◌, Option, none,
  some, if◌then◌else◌, ◌==◌, leb, unwrap_or, string_key,
}
use dynamod.Common.Map
use dynamod.Common.Map.{Map}
use dynamod.Common.Set
use dynamod.Common.Lists.{length}
use dynamod.Dependency.Graph.{
  DependencyGraph, dependencies_of, requires_of, dependents_of, all_services,
}

pub record StartupFrontier : Type 0 where
  pub unmet : Map String ℕ
  pub ready_to_start : List String
  pub ready : List String
  pub pending : List String
  pub blocked : List String
  pub completed : List String

abbrev empty : StartupFrontier
empty = record {
  unmet = [];
  ready_to_start = [];
  ready = [];
  pending = [];
  blocked = [];
  completed = [];
}

-- The loop of `new`, over the set of services.
pub new_from : DependencyGraph → List String → StartupFrontier → StartupFrontier
new_from g [] f = f
new_from g (service ∷ services) f =
    let count = length (dependencies_of g service) in
    new_from g services (record f {
      unmet = Map.insert service count f.unmet;
      ready_to_start = if count == 0 then f.ready_to_start ++ service ∷ [] else f.ready_to_start;
    })

unfoldable pub new : DependencyGraph → StartupFrontier
unfolding new_from
new g = new_from g (all_services g) empty

pub insert_all : List String → List String → List String
insert_all [] s = s
insert_all (x ∷ xs) s = insert_all xs (Set.insert x s)

unfoldable pub take_ready : StartupFrontier → StartupFrontier × List String
unfolding insert_all
take_ready f = (
  record f { ready_to_start = []; pending = insert_all f.ready_to_start f.pending },
  f.ready_to_start,
)

-- `if *count == 0 && ... { ready_to_start.push_back(dependent) }`
enqueue_if : Bool → String → StartupFrontier → StartupFrontier
enqueue_if true dependent f = record f { ready_to_start = f.ready_to_start ++ dependent ∷ [] }
enqueue_if false dependent f = f

-- One dependency fewer for `dependent`; it is queued if none is left and `open_to` it.
pub decrement : Bool → String → StartupFrontier → StartupFrontier
unfolding enqueue_if
decrement open_to dependent f = elim (Map.lookup dependent f.unmet) [
  | none ↦ f
  | some count ↦
      enqueue_if ((count - 1 == 0) && open_to) dependent
        (record f { unmet = Map.adjust dependent (λ c. c - 1) f.unmet })
]

-- A loop over dependents that decrements those for which `active` holds.
pub visit :
    (active open_to : String → StartupFrontier → Bool)
    → List String
    → StartupFrontier
    → StartupFrontier
unfolding decrement
visit active open_to [] f = f
visit active open_to (d ∷ ds) f =
    visit active open_to ds (if active d f then decrement (open_to d f) d f else f)

abbrev pub not_begun : String → StartupFrontier → Bool
not_begun s f = not (Set.contains s f.completed) && not (Set.contains s f.pending)

abbrev pub not_blocked : String → StartupFrontier → Bool
not_blocked s f = not (Set.contains s f.blocked)

-- The loop of `mark_ready`, which passes over blocked dependents.
pub release_all : List String → StartupFrontier → StartupFrontier
unfolding visit
release_all = visit not_blocked not_begun

abbrev pub begin_ready : String → StartupFrontier → StartupFrontier
begin_ready service f = record f {
  pending = Set.remove service f.pending;
  ready = Set.insert service f.ready;
  completed = Set.insert service f.completed;
}

unfoldable pub mark_ready : String → DependencyGraph → StartupFrontier → StartupFrontier
unfolding release_all
mark_ready service g f = release_all (dependents_of g service) (begin_ready service f)

abbrev pub waits_softly : String → DependencyGraph → String → StartupFrontier → Bool
waits_softly service g d f = not (Set.contains service (requires_of g d))

abbrev pub unblocked_not_begun : String → StartupFrontier → Bool
unblocked_not_begun d f = not_begun d f && not_blocked d f

-- The first loop of `mark_failed` does two things: dependents that only wait for the end of
-- `service` have one dependency fewer ...
pub notify : String → DependencyGraph → List String → StartupFrontier → StartupFrontier
unfolding visit
notify service g = visit (waits_softly service g) unblocked_not_begun

-- ... and the others are put on the list `to_block`.
pub hard_dependents : String → DependencyGraph → List String → List String
hard_dependents service g [] = []
hard_dependents service g (d ∷ ds) =
    let rest = hard_dependents service g ds in
    if Set.contains service (requires_of g d) then d ∷ rest else rest

-- The dependents of `svc` that the loop pushes after blocking it.
pub requirers : String → DependencyGraph → List String → List String → List String
requirers svc g blocked [] = []
requirers svc g blocked (d ∷ ds) =
    let rest = requirers svc g blocked ds in
    if Set.contains svc (requires_of g d) && not (Set.contains d blocked) then d ∷ rest else rest

pub block : String → StartupFrontier → StartupFrontier
block svc f = record f {
  blocked = Set.insert svc f.blocked;
  completed = Set.insert svc f.completed;
}

-- `while let Some(svc) = to_block.pop_front()`; `none` if the fuel runs out.
pub block_all : ℕ → DependencyGraph → List String → StartupFrontier → Option StartupFrontier
block_all fuel g [] f = some f
block_all zero g (svc ∷ queue) f = none
block_all (suc fuel) g (svc ∷ queue) f = elim (Set.contains svc f.blocked) [
  | true ↦ block_all fuel g queue f
  | false ↦
      let f' = block svc f in
      block_all fuel g (queue ++ requirers svc g f'.blocked (dependents_of g svc)) f'
]

-- The dependents of all services that are not blocked.
unfoldable pub block_work : List String → Map String (List String) → ℕ
block_work blocked [] = 0
block_work blocked ((k, ds) ∷ m) =
    let rest = block_work blocked m in if Set.contains k blocked then rest else length ds + rest

-- Enough fuel for `block_all`: see `mark_failed-returns`.
pub block_fuel : DependencyGraph → List String → StartupFrontier → ℕ
unfolding block_work
block_fuel g queue f = length queue + block_work f.blocked g.reverse_deps

abbrev pub begin_failed : String → StartupFrontier → StartupFrontier
begin_failed service f = record f {
  pending = Set.remove service f.pending;
  completed = Set.insert service f.completed;
}

unfoldable pub mark_failed : String → DependencyGraph → StartupFrontier → Option StartupFrontier
unfolding notify hard_dependents requirers block block_all block_fuel
mark_failed service g f =
    let dependents = dependents_of g service in
    let to_block = hard_dependents service g dependents in
    let f' = notify service g dependents (begin_failed service f) in
    block_all (block_fuel g to_block f') g to_block f'

unfoldable pub is_complete : StartupFrontier → Bool
is_complete f = leb (length f.unmet) (length f.completed + length f.blocked)

abbrev is_empty : List String → Bool
is_empty [] = true
is_empty (_ ∷ _) = false

unfoldable pub has_ready : StartupFrontier → Bool
has_ready f = not (is_empty f.ready_to_start)

unfoldable pub has_pending : StartupFrontier → Bool
has_pending f = not (is_empty f.pending)

abbrev pub blocked_services : StartupFrontier → List String
blocked_services f = f.blocked

abbrev pub ready_services : StartupFrontier → List String
ready_services f = f.ready

unfoldable pub pending_count : StartupFrontier → ℕ
pending_count f = length f.pending
