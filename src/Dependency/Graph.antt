-- ===== src/Dependency/Graph.antt =====
-- rust/dynamod-svmgr/src/dependency/graph.rs: who waits for whom at start-up.
pub mod Shape
pub mod Build
pub mod Declared
use dynamod.Common.{
  ℕ, zero, suc, String, Bool, true, false, not, List, [], ◌∷◌, Option, if◌then◌else◌, unwrap_or,
  string_key,
}
use dynamod.Common.Map
use dynamod.Common.Map.{Map}
use dynamod.Common.Set
use dynamod.Common.Lists.{length}
use dynamod.Config.Service.{ServiceDef}

pub record DependencyGraph : Type 0 where
  pub hard_deps : Map String (List String)
  pub requires : Map String (List String)
  pub reverse_deps : Map String (List String)
  pub services : List String

unfoldable pub dependencies_of : DependencyGraph → String → List String
dependencies_of g service = unwrap_or (Map.lookup service g.hard_deps) []

unfoldable pub requires_of : DependencyGraph → String → List String
requires_of g service = unwrap_or (Map.lookup service g.requires) []

unfoldable pub dependents_of : DependencyGraph → String → List String
dependents_of g service = unwrap_or (Map.lookup service g.reverse_deps) []

abbrev pub all_services : DependencyGraph → List String
all_services g = g.services

unmet_in : List String → List String → ℕ
unmet_in ready [] = 0
unmet_in ready (dep ∷ deps) =
    let rest = unmet_in ready deps in if not (Set.contains dep ready) then suc rest else rest

unfoldable pub unmet_count : DependencyGraph → String → List String → ℕ
unfolding unmet_in
unmet_count g service ready = unmet_in ready (dependencies_of g service)

-- The first loop of `build`, over the set of names.
collect_names : List ServiceDef → List String → List String
collect_names [] names = names
collect_names (d ∷ ds) names = collect_names ds (Set.insert d.service.name names)

pub init_services : List String → DependencyGraph → DependencyGraph
init_services [] g = g
init_services (name ∷ names) g = init_services names (record g {
  hard_deps = Map.insert name [] g.hard_deps;
  requires = Map.insert name [] g.requires;
  reverse_deps = Map.insert name [] g.reverse_deps;
})

-- `hard_deps.get_mut(dependent).unwrap().insert(dep)` and `reverse_deps.get_mut(dep).unwrap()
-- .insert(dependent)`. Both keys are there whenever the loops below call this.
pub link : String → String → DependencyGraph → DependencyGraph
link dependent dep g = record g {
  hard_deps = Map.adjust dependent (Set.insert dep) g.hard_deps;
  reverse_deps = Map.adjust dep (Set.insert dependent) g.reverse_deps;
}

pub link_required : String → String → DependencyGraph → DependencyGraph
unfolding link
link_required dependent dep g =
    link dependent dep (record g { requires = Map.adjust dependent (Set.insert dep) g.requires })

-- The bodies of the four loops over a definition's lists.
pub add_requires : String → String → DependencyGraph → DependencyGraph
unfolding link_required
add_requires name dep g = if Set.contains dep g.services then link_required name dep g else g

pub add_ordering : String → String → DependencyGraph → DependencyGraph
add_ordering name dep g = if Set.contains dep g.services then link name dep g else g

pub add_before : String → String → DependencyGraph → DependencyGraph
add_before name dep g = if Set.contains dep g.services then link dep name g else g

pub for_each :
    (String → DependencyGraph → DependencyGraph) → List String → DependencyGraph → DependencyGraph
for_each body [] g = g
for_each body (dep ∷ deps) g = for_each body deps (body dep g)

pub add_definition : ServiceDef → DependencyGraph → DependencyGraph
add_definition def g =
    let name = def.service.name in
    let required = for_each (add_requires name) def.dependencies.requires g in
    let wanted = for_each (add_ordering name) def.dependencies.wants required in
    let after = for_each (add_ordering name) def.dependencies.after wanted in
    for_each (add_before name) def.dependencies.before after

pub add_definitions : List ServiceDef → DependencyGraph → DependencyGraph
add_definitions [] g = g
add_definitions (def ∷ defs) g = add_definitions defs (add_definition def g)

unfoldable pub build : List ServiceDef → DependencyGraph
unfolding collect_names init_services add_definitions add_definition for_each add_requires
    add_ordering add_before link link_required
build defs =
    let services = collect_names defs [] in
    let empty : DependencyGraph = record {
      hard_deps = [];
      requires = [];
      reverse_deps = [];
      services = services;
    } in
    add_definitions defs (init_services services empty)
