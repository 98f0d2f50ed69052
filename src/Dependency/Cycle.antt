-- ===== src/Dependency/Cycle.antt =====
-- rust/dynamod-svmgr/src/dependency/cycle.rs: the search for cycles of dependencies.
mod Tests
use dynamod.Common.{
  ℕ, zero, suc, String, List, [], ◌∷◌, ◌++◌, Option, none, some, ite, string_discrete, string_key,
}
use mathlib.Core.Option
use dynamod.Common.Map
use dynamod.Common.Map.{Map}
use dynamod.Common.Lists.{length}
use dynamod.Dependency.Graph.{DependencyGraph, dependencies_of, all_services}

pub data Color : Type 0 where
  white gray black : Color

-- What the search writes to.
pub record Search : Type 0 where
  pub colors : Map String Color
  pub path : List String
  pub cycles : List (List String)

-- `path[start..]` for the position `start` of `dep`, if it is on the path.
path_from : String → List String → Option (List String)
path_from dep [] = none
path_from dep (s ∷ path) =
    let rest = path_from dep path in ite (string_discrete s dep) (some (s ∷ path)) rest

abbrev report : Option (List String) → Search → Search
report none st = st
report (some cycle) st = record st { cycles = st.cycles ++ cycle ∷ [] }

abbrev enter : String → Search → Search
enter node st = record st { colors = Map.insert node gray st.colors; path = st.path ++ node ∷ [] }

-- `path.pop()`
pop : List String → List String
pop [] = []
pop (s ∷ path) = elim path [ [] ↦ [] | _ ∷ _ ↦ s ∷ pop path ]

leave : String → Search → Search
unfolding pop
leave node st = record st { colors = Map.insert node black st.colors; path = pop st.path }

-- The loop of `dfs` over the dependencies of a node, where a call of `dfs` is the loop over the
-- dependencies of the next node between `enter` and `leave`. The fuel bounds the depth; `none` if
-- it runs out.
search : ℕ → DependencyGraph → List String → Search → Option Search
unfolding path_from leave
search fuel g [] st = some st
search zero g (dep ∷ deps) st = none
search (suc fuel) g (dep ∷ deps) st = elim (Map.lookup dep st.colors) [
  | some gray ↦ search (suc fuel) g deps (report (path_from dep st.path) st)
  | some black ↦ search (suc fuel) g deps st
  | some white ↦ elim (search fuel g (dependencies_of g dep) (enter dep st)) [
    | none ↦ none
    | some st' ↦ search (suc fuel) g deps (leave dep st')
  ]
  | none ↦ elim (search fuel g (dependencies_of g dep) (enter dep st)) [
    | none ↦ none
    | some st' ↦ search (suc fuel) g deps (leave dep st')
  ]
]

abbrev dfs : ℕ → DependencyGraph → String → Search → Option Search
dfs fuel g node st = elim (search fuel g (dependencies_of g node) (enter node st)) [
  | none ↦ none
  | some st' ↦ some (leave node st')
]

-- `if colors[service] == Color::White`
abbrev is_white {ℓ} : {A : Type ℓ} → Option Color → A → A → A
is_white (some white) yes_case no_case = yes_case
is_white (some gray) yes_case no_case = no_case
is_white (some black) yes_case no_case = no_case
is_white none yes_case no_case = no_case

search_all : ℕ → DependencyGraph → List String → Search → Option Search
unfolding search
search_all fuel g [] st = some st
search_all fuel g (service ∷ services) st =
    elim (is_white (Map.lookup service st.colors) (dfs fuel g service st) (some st)) [
      | none ↦ none
      | some st' ↦ search_all fuel g services st'
    ]

whitened : List String → Map String Color → Map String Color
whitened [] colors = colors
whitened (s ∷ services) colors = whitened services (Map.insert s white colors)

-- A path has no more nodes than there are services.
unfoldable pub detect_cycles : DependencyGraph → Option (List (List String))
unfolding search_all whitened
detect_cycles g =
    let st : Search = record { colors = whitened (all_services g) []; path = []; cycles = [] } in
    elim (search_all (suc (length (all_services g))) g (all_services g) st) [
      | none ↦ none
      | some st' ↦ some st'.cycles
    ]

pub record CycleError : Type 0 where
  pub cycles : List (List String)

-- `Result<(), CycleError>`
pub data Verdict : Type 0 where
  ok : Verdict
  err : CycleError → Verdict

abbrev verdict : List (List String) → Verdict
verdict [] = ok
verdict (cycle ∷ cycles) = err (record { cycles = cycle ∷ cycles })

unfoldable pub validate_no_cycles : DependencyGraph → Option Verdict
unfolding detect_cycles
validate_no_cycles g = Option.map verdict (detect_cycles g)
