-- ===== src/Dependency/Graph/Build.antt =====
-- `build` against the definitions: which edges the four loops add.
use dynamod.Common.{
  String, ◌≡◌, ◌∙◌, refl, Bool, true, false, ◌&&◌, ◌||◌, List, [], ◌∷◌, arith, subst, Bool-cases,
  inl, inr, string_key,
}
use dynamod.Common.Set
use dynamod.Common.Set.{contains-insert, Distinct, insert-Distinct}
use dynamod.Config.Service.{ServiceDef}
use dynamod.Dependency.Graph.{
  DependencyGraph, dependencies_of, requires_of, link, link_required, add_requires, add_ordering,
  add_before, for_each, add_definition, add_definitions,
}
use dynamod.Dependency.Graph.Shape.{
  IsWellFormed, same, link-deps, link-IsWellFormed, link_required-deps, link_required-requires,
  link_required-IsWellFormed,
}

-- `h` is `g` with the edges `edge` and, among them, the required edges `hard`.
pub record Extends (g h : DependencyGraph) (edge hard : String → String → Bool) : Type 0 where
  pub shape : IsWellFormed h
  pub same_services : h.services ≡ g.services
  pub deps :
      (s d : String)
      → Set.contains d (dependencies_of h s) ≡ (edge s d || Set.contains d (dependencies_of g s))
  pub requires :
      (s d : String)
      → Set.contains d (requires_of h s) ≡ (hard s d || Set.contains d (requires_of g s))

Extends-trans :
    {f g h : DependencyGraph} {e₁ h₁ e₂ h₂ e hard : String → String → Bool}
    → Extends f g e₁ h₁
    → Extends g h e₂ h₂
    → ((s d : String) → e s d ≡ (e₂ s d || e₁ s d))
    → ((s d : String) → hard s d ≡ (h₂ s d || h₁ s d))
    → Extends f h e hard
Extends-trans a b edges hards = record {
  shape = b.shape;
  same_services = ground (arith, a.same_services, b.same_services);
  deps = λ s d. ground (arith, a.deps s d, b.deps s d, edges s d);
  requires = λ s d. ground (arith, a.requires s d, b.requires s d, hards s d);
}

-- The edges that a loop over a list adds, given the list and the known services.
abbrev Edges : Type 0
Edges = List String → List String → String → String → Bool

abbrev pub no_edges : Edges
no_edges deps services s d = false

-- `name` waits for each name on the list.
abbrev pub forward : String → Edges
forward name deps services s d = same name s && (Set.contains d deps && Set.contains d services)

-- Each name on the list waits for `name`.
abbrev pub backward : String → Edges
backward name deps services s d = same name d && (Set.contains s deps && Set.contains s services)

-- What a loop's body must do, and how the edges of a list are made up of those of its elements.
record Loop (body : String → DependencyGraph → DependencyGraph) (services : List String)
    (edge hard : Edges) : Type 0 where
  one :
      (x : String) (g : DependencyGraph)
      → IsWellFormed g
      → g.services ≡ services
      → Extends g (body x g) (edge (x ∷ []) services) (hard (x ∷ []) services)
  edge_nil : (s d : String) → edge [] services s d ≡ false
  hard_nil : (s d : String) → hard [] services s d ≡ false
  edge_cons :
      (x : String) (l : List String) (s d : String)
      → edge (x ∷ l) services s d ≡ (edge l services s d || edge (x ∷ []) services s d)
  hard_cons :
      (x : String) (l : List String) (s d : String)
      → hard (x ∷ l) services s d ≡ (hard l services s d || hard (x ∷ []) services s d)

for_each-Extends :
    {body : String → DependencyGraph → DependencyGraph} {services : List String} {edge hard : Edges}
    → Loop body services edge hard
    → (l : List String) (g : DependencyGraph) → IsWellFormed g
    → g.services ≡ services
    → Extends g (for_each body l g) (edge l services) (hard l services)
unfolding for_each
for_each-Extends loop [] g v e = record {
  shape = v;
  same_services = refl;
  deps = λ s d. ground (arith, loop.edge_nil s d);
  requires = λ s d. ground (arith, loop.hard_nil s d);
}
for_each-Extends {body} {services} {edge} {hard} loop (x ∷ l) g v e =
    let first = loop.one x g v e in
    Extends-trans first (for_each-Extends loop l (body x g) first.shape (first.same_services ∙ e))
      (loop.edge_cons x l) (loop.hard_cons x l)

module _ (name : String) (services : List String) (known : Set.contains name services ≡ true) where
  requires-Loop : Loop (add_requires name) services (forward name) (forward name)
  unfolding add_requires Set.contains
  requires-Loop = record {
    one = λ x g v e. elim (Bool-cases (Set.contains x g.services)) [
      | inl within ↦ rw within (record {
        shape = link_required-IsWellFormed name x g v (rw e known) within;
        same_services = unfold link_required in refl;
        deps = λ s d. ground (arith, link_required-deps name x g v (rw e known) within s d);
        requires = λ s d. ground (arith, link_required-requires name x g v (rw e known) within s d);
      })
      | inr out ↦ rw out (record {
        shape = v;
        same_services = refl;
        deps = λ s d. ground arith;
        requires = λ s d. ground arith;
      })
    ];
    edge_nil = λ s d. ground arith;
    hard_nil = λ s d. ground arith;
    edge_cons = λ x l s d. ground arith;
    hard_cons = λ x l s d. ground arith;
  }

  ordering-Loop : Loop (add_ordering name) services (forward name) no_edges
  unfolding add_ordering Set.contains
  ordering-Loop = record {
    one = λ x g v e. elim (Bool-cases (Set.contains x g.services)) [
      | inl within ↦ rw within (record {
        shape = link-IsWellFormed name x g v (rw e known) within;
        same_services = unfold link in refl;
        deps = λ s d. ground (arith, link-deps name x g v (rw e known) within s d);
        requires = λ s d. unfold link requires_of in refl;
      })
      | inr out ↦ rw out (record {
        shape = v;
        same_services = refl;
        deps = λ s d. ground arith;
        requires = λ s d. refl;
      })
    ];
    edge_nil = λ s d. ground arith;
    hard_nil = λ s d. refl;
    edge_cons = λ x l s d. ground arith;
    hard_cons = λ x l s d. refl;
  }

  before-Loop : Loop (add_before name) services (backward name) no_edges
  unfolding add_before Set.contains
  before-Loop = record {
    one = λ x g v e. elim (Bool-cases (Set.contains x g.services)) [
      | inl within ↦ rw within (record {
        shape = link-IsWellFormed x name g v within (rw e known);
        same_services = unfold link in refl;
        deps = λ s d. ground (arith, link-deps x name g v within (rw e known) s d);
        requires = λ s d. unfold link requires_of in refl;
      })
      | inr out ↦ rw out (record {
        shape = v;
        same_services = refl;
        deps = λ s d. ground arith;
        requires = λ s d. refl;
      })
    ];
    edge_nil = λ s d. ground arith;
    hard_nil = λ s d. refl;
    edge_cons = λ x l s d. ground arith;
    hard_cons = λ x l s d. refl;
  }

-- What one definition declares: `s` waits for `d`.
abbrev pub declares : ServiceDef → List String → String → String → Bool
declares def services s d =
    let name = def.service.name in
    let lists = def.dependencies in
    forward name lists.requires services s d
    || (forward name lists.wants services s d
        || (forward name lists.after services s d || backward name lists.before services s d))

-- What a list of definitions declares.
unfoldable pub declared : List ServiceDef → List String → String → String → Bool
declared [] services s d = false
declared (def ∷ defs) services s d =
    let rest = declared defs services s d in declares def services s d || rest

-- The same for `requires` alone.
unfoldable pub declared_requires : List ServiceDef → List String → String → String → Bool
declared_requires [] services s d = false
declared_requires (def ∷ defs) services s d =
    let rest = declared_requires defs services s d in
    forward def.service.name def.dependencies.requires services s d || rest

add_definition-Extends :
    (def : ServiceDef) (g : DependencyGraph)
    → IsWellFormed g
    → Set.contains def.service.name g.services ≡ true
    → Extends g
        (add_definition def g)
        (declares def g.services)
        (forward def.service.name def.dependencies.requires g.services)
unfolding add_definition
add_definition-Extends def g v known =
    let name = def.service.name in
    let lists = def.dependencies in
    let g₁ = for_each (add_requires name) lists.requires g in
    let g₂ = for_each (add_ordering name) lists.wants g₁ in
    let g₃ = for_each (add_ordering name) lists.after g₂ in
    let first = for_each-Extends (requires-Loop name g.services known) lists.requires g v refl in
    let second =
      for_each-Extends (ordering-Loop name g.services known) lists.wants g₁ first.shape
        first.same_services in
    let both : Extends g g₂
        (λ s d.
          forward name lists.wants g.services s d || forward name lists.requires g.services s d)
        (forward name lists.requires g.services) =
      Extends-trans first second (λ s d. refl) (λ s d. refl) in
    let third =
      for_each-Extends (ordering-Loop name g.services known) lists.after g₂ both.shape
        both.same_services in
    let most : Extends g g₃
        (λ s d.
          forward name lists.after g.services s d
          || (forward name lists.wants g.services s d
              || forward name lists.requires g.services s d))
        (forward name lists.requires g.services) =
      Extends-trans both third (λ s d. refl) (λ s d. refl) in
    let fourth =
      for_each-Extends (before-Loop name g.services known) lists.before g₃ most.shape
        most.same_services in
    Extends-trans most fourth (λ s d. ground arith) (λ s d. refl)

-- Every definition's name is in the set.
abbrev pub AllKnown : List String → List ServiceDef → Type 0
AllKnown services [] = Unit {0}
AllKnown services (def ∷ defs) =
    (Set.contains def.service.name services ≡ true) × AllKnown services defs

pub add_definitions-Extends :
    (defs : List ServiceDef) (services : List String) (g : DependencyGraph)
    → g.services ≡ services
    → IsWellFormed g
    → AllKnown services defs
    → Extends g (add_definitions defs g) (declared defs services) (declared_requires defs services)
unfolding add_definitions declared declared_requires
add_definitions-Extends [] services g e v known = record {
  shape = v;
  same_services = refl;
  deps = λ s d. refl;
  requires = λ s d. refl;
}
add_definitions-Extends (def ∷ defs) services g e v known =
    let hard = λ (names : List String). forward def.service.name def.dependencies.requires names in
    let first =
      subst (λ names. Extends g (add_definition def g) (declares def names) (hard names)) e
        (add_definition-Extends def g v (rw e known.0)) in
    Extends-trans first
      (add_definitions-Extends defs services (add_definition def g) (first.same_services ∙ e)
        first.shape known.1)
      (λ s d. ground arith) (λ s d. ground arith)
