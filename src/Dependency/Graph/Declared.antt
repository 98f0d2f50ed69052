-- ===== src/Dependency/Graph/Declared.antt =====
-- `build` as a whole: its first loop, its set of names, and the graph that results.
use dynamod.Common.{
  String, ◌≡◌, ◌∙◌, refl, Bool, true, false, ◌||◌, List, [], ◌∷◌, arith, string_key,
}
use dynamod.Common.Map
use dynamod.Common.Map.{lookup-insert}
use dynamod.Common.Set
use dynamod.Common.Set.{contains-insert, Distinct, insert-Distinct}
use dynamod.Config.Service.{ServiceDef}
use dynamod.Dependency.Graph.{
  DependencyGraph, dependencies_of, requires_of, dependents_of, init_services, build, collect_names,
}
use dynamod.Dependency.Graph.Shape.{IsWellFormed, same, is_some}
use dynamod.Dependency.Graph.Build.{
  Extends, AllKnown, declared, declared_requires, add_definitions-Extends,
}

abbrev empty_graph : List String → DependencyGraph
empty_graph services = record {
  hard_deps = [];
  requires = [];
  reverse_deps = [];
  services = services;
}

abbrev reverse_onto : List String → List String → List String
reverse_onto [] done = done
reverse_onto (x ∷ xs) done = reverse_onto xs (x ∷ done)

-- Whether a definition has the name.
unfoldable pub named : String → List ServiceDef → Bool
named k [] = false
named k (def ∷ defs) = let rest = named k defs in same def.service.name k || rest

-- The first loop: every service has three sets, all empty.
module _ (services : List String) where
  record Started (done : List String) (g : DependencyGraph) : Type 0 where
    same_services : g.services ≡ services
    no_deps : (s : String) → dependencies_of g s ≡ []
    no_requires : (s : String) → requires_of g s ≡ []
    no_dependents : (s : String) → dependents_of g s ≡ []
    keyed :
        (k : String)
        → Set.contains k done ≡ true
        → (is_some (Map.lookup k g.hard_deps) ≡ true)
          × (is_some (Map.lookup k g.requires) ≡ true)
          × (is_some (Map.lookup k g.reverse_deps) ≡ true)

  init_one :
      (done : List String) (name : String) (g : DependencyGraph)
      → Started done g
      → Started (name ∷ done) (record g {
        hard_deps = Map.insert name [] g.hard_deps;
        requires = Map.insert name [] g.requires;
        reverse_deps = Map.insert name [] g.reverse_deps;
      })
  unfolding dependencies_of requires_of dependents_of Set.contains
  init_one done name g st = record {
    same_services = st.same_services;
    no_deps = λ s. ground (arith, lookup-insert name s [] g.hard_deps, st.no_deps s);
    no_requires = λ s. ground (arith, lookup-insert name s [] g.requires, st.no_requires s);
    no_dependents = λ s. ground (arith, lookup-insert name s [] g.reverse_deps, st.no_dependents s);
    keyed = λ k h. ground (
      arith,
      lookup-insert name k [] g.hard_deps,
      lookup-insert name k [] g.requires,
      lookup-insert name k [] g.reverse_deps,
      st.keyed k,
    );
  }

  init_services-Started :
      (names done : List String) (g : DependencyGraph)
      → Started done g
      → Started (reverse_onto names done) (init_services names g)
  unfolding init_services
  init_services-Started [] done g st = st
  init_services-Started (name ∷ names) done g st =
      init_services-Started names (name ∷ done) _ (init_one done name g st)

contains-reverse_onto :
    (k : String) (names done : List String)
    → Set.contains k (reverse_onto names done) ≡ (Set.contains k names || Set.contains k done)
unfolding Set.contains
contains-reverse_onto k [] done = refl
contains-reverse_onto k (x ∷ names) done = ground (arith, contains-reverse_onto k names (x ∷ done))

collect_names-Distinct :
    (defs : List ServiceDef) (names : List String)
    → Distinct names
    → Distinct (collect_names defs names)
unfolding collect_names
collect_names-Distinct [] names h = h
collect_names-Distinct (d ∷ defs) names h =
    collect_names-Distinct defs _ (insert-Distinct d.service.name names h)

contains-collect_names :
    (defs : List ServiceDef) (names : List String) (k : String)
    → Set.contains k (collect_names defs names) ≡ (named k defs || Set.contains k names)
unfolding collect_names named
contains-collect_names [] names k = refl
contains-collect_names (d ∷ defs) names k = ground (
  arith,
  contains-collect_names defs (Set.insert d.service.name names) k,
  contains-insert d.service.name k names,
)

all_known :
    (services : List String) (defs : List ServiceDef)
    → ((k : String) → named k defs ≡ true → Set.contains k services ≡ true)
    → AllKnown services defs
unfolding named
all_known services [] h = tt
all_known services (def ∷ defs) h =
    (h def.service.name (ground arith), all_known services defs (λ k e. h k (ground arith)))

module _ (defs : List ServiceDef) where
  names : List String
  names = collect_names defs []

  names-named : (k : String) → Set.contains k names ≡ named k defs
  unfolding names Set.contains
  names-named k = ground (arith, contains-collect_names defs [] k)

  started : DependencyGraph
  unfolding names
  started = init_services names (empty_graph names)

  started-Started : Started names (reverse_onto names []) started
  unfolding started dependencies_of requires_of dependents_of Set.contains Map.lookup
  started-Started = init_services-Started names names [] (empty_graph names) (record {
    same_services = refl;
    no_deps = λ s. refl;
    no_requires = λ s. refl;
    no_dependents = λ s. refl;
    keyed = λ k h. cc;
  })

  started-IsWellFormed : IsWellFormed started
  unfolding Set.contains
  started-IsWellFormed =
      let st = started-Started in
      record {
        keyed =
            λ k h. st.keyed k (ground (arith, contains-reverse_onto k names [], st.same_services));
        transposed = λ s d. ground (arith, st.no_deps s, st.no_dependents d);
        required = λ s d h. ground (arith, st.no_requires s);
        closed = λ s d h. ground (arith, st.no_deps s);
        distinct =
            λ s. (rw (st.no_deps s) tt, rw (st.no_requires s) tt, rw (st.no_dependents s) tt);
        distinct_services = rw st.same_services (unfold names in collect_names-Distinct defs [] tt);
      }

  built : Extends started (build defs) (declared defs names) (declared_requires defs names)
  unfolding build started names
  built =
      add_definitions-Extends defs names started started-Started.same_services started-IsWellFormed
        (all_known names defs (λ k h. names-named k ∙ h))

-- For any definitions the graph is well-formed: every service has its three sets, the reverse map
-- is the transpose of the dependencies, `requires` edges are dependencies, edges join known
-- services, and no set has a repeat.
pub build-IsWellFormed : (defs : List ServiceDef) → IsWellFormed (build defs)
build-IsWellFormed defs = (built defs).shape

-- The services are the names of the definitions; `s` waits for `d` exactly if `s` lists `d` under
-- requires, wants or after, or `d` lists `s` under before, and both are services; and the edge is
-- a required one exactly if `s` lists `d` under requires and `d` is a service.
pub build-declared :
    (defs : List ServiceDef)
    → let g = build defs in
      ((k : String) → Set.contains k g.services ≡ named k defs)
      × ((s d : String) → Set.contains d (dependencies_of g s) ≡ declared defs g.services s d)
      × ((s d : String) → Set.contains d (requires_of g s) ≡ declared_requires defs g.services s d)
unfolding Set.contains
build-declared defs =
    let st = started-Started defs in
    let b = built defs in
    let e : (build defs).services ≡ names defs = b.same_services ∙ st.same_services in
    (
      λ k. ground (arith, e, names-named defs k),
      λ s d. ground (arith, e, b.deps s d, st.no_deps s),
      λ s d. ground (arith, e, b.requires s d, st.no_requires s),
    )
