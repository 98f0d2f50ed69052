-- ===== src/Dependency/Graph/Shape.antt =====
-- The graph that `build` makes: its edges are those the definitions declare between known
-- services, the reverse map is their transpose, and the sets have no repeats.
use dynamod.Common.{
  String, ◌≡◌, Bool, true, false, ◌&&◌, ◌||◌, List, [], Option, none, some, arith, subst, ite,
  unwrap_or, Option-cases, inl, inr, string_discrete, string_key,
}
use dynamod.Common.Map
use dynamod.Common.Map.{lookup-insert, lookup-adjust}
use dynamod.Common.Set
use dynamod.Common.Set.{contains-insert, Distinct, insert-Distinct}
use dynamod.Dependency.Graph.{
  DependencyGraph, dependencies_of, requires_of, dependents_of, link, link_required,
}

abbrev pub is_some {ℓ} : {A : Type ℓ} → Option A → Bool
is_some none = false
is_some (some _) = true

pub record IsWellFormed (g : DependencyGraph) : Type 0 where
  pub keyed :
      (k : String)
      → Set.contains k g.services ≡ true
      → (is_some (Map.lookup k g.hard_deps) ≡ true)
        × (is_some (Map.lookup k g.requires) ≡ true)
        × (is_some (Map.lookup k g.reverse_deps) ≡ true)
  pub transposed :
      (s d : String) → Set.contains d (dependencies_of g s) ≡ Set.contains s (dependents_of g d)
  pub required :
      (s d : String)
      → Set.contains d (requires_of g s) ≡ true
      → Set.contains d (dependencies_of g s) ≡ true
  pub closed :
      (s d : String)
      → Set.contains d (dependencies_of g s) ≡ true
      → (Set.contains s g.services ≡ true) × (Set.contains d g.services ≡ true)
  pub distinct :
      (s : String)
      → Distinct (dependencies_of g s) × Distinct (requires_of g s) × Distinct (dependents_of g s)
  pub distinct_services : Distinct g.services

-- A set in a map, after a write to one of the sets.
abbrev at : String → Map.Map String (List String) → List String
at s m = unwrap_or (Map.lookup s m) []

at-adjust :
    (k x s : String) (m : Map.Map String (List String))
    → is_some (Map.lookup k m) ≡ true
    → at s (Map.adjust k (Set.insert x) m)
      ≡ ite (string_discrete k s) (Set.insert x (at s m)) (at s m)
at-adjust k x s m h = ground (arith, lookup-adjust k s (Set.insert x) m)

abbrev pub same : String → String → Bool
same a b = ite (string_discrete a b) true false

has-adjust :
    (k x s : String) (m : Map.Map String (List String))
    → is_some (Map.lookup s (Map.adjust k (Set.insert x) m)) ≡ is_some (Map.lookup s m)
has-adjust k x s m = elim (Option-cases (Map.lookup s m)) [
  | inl e ↦ ground (arith, lookup-adjust k s (Set.insert x) m)
  | inr (v, e) ↦ ground (arith, lookup-adjust k s (Set.insert x) m)
]

-- A write to a set that is there: its elements, and that it has no repeats.
module _ (k x : String) (m : Map.Map String (List String))
    (there : is_some (Map.lookup k m) ≡ true) where
  contains-adjust :
      (s d : String)
      → Set.contains d (at s (Map.adjust k (Set.insert x) m))
        ≡ ((same k s && same x d) || Set.contains d (at s m))
  contains-adjust s d = ground (arith, at-adjust k x s m, contains-insert x d (at s m))

  adjust-Distinct :
      (s : String) → Distinct (at s m) → Distinct (at s (Map.adjust k (Set.insert x) m))
  adjust-Distinct s h = elim (string_discrete k s) [
    | yes e ↦ subst Distinct (ground (arith, at-adjust k x s m)) (insert-Distinct x (at s m) h)
    | no e ↦ subst Distinct (ground (arith, at-adjust k x s m)) h
  ]

-- An edge between known services keeps the graph well-formed.
module _ (a b : String) (g : DependencyGraph) (v : IsWellFormed g)
    (known_a : Set.contains a g.services ≡ true) (known_b : Set.contains b g.services ≡ true) where
  there_a : is_some (Map.lookup a g.hard_deps) ≡ true
  there_a = (v.keyed a known_a).0

  required_a : is_some (Map.lookup a g.requires) ≡ true
  required_a = (v.keyed a known_a).1

  there_b : is_some (Map.lookup b g.reverse_deps) ≡ true
  there_b = (v.keyed b known_b).2

  pub link-deps :
      (s d : String)
      → Set.contains d (dependencies_of (link a b g) s)
        ≡ ((same a s && same b d) || Set.contains d (dependencies_of g s))
  unfolding dependencies_of link
  link-deps s d = contains-adjust a b g.hard_deps there_a s d

  pub link-IsWellFormed : IsWellFormed (link a b g)
  unfolding dependencies_of requires_of dependents_of link
  link-IsWellFormed = record {
    keyed = λ k h.
        ground (arith, v.keyed k h, has-adjust a b k g.hard_deps, has-adjust b a k g.reverse_deps);
    transposed = λ s d. ground (
      arith,
      contains-adjust a b g.hard_deps there_a s d,
      contains-adjust b a g.reverse_deps there_b d s,
      v.transposed s d,
    );
    required =
        λ s d h. ground (arith, contains-adjust a b g.hard_deps there_a s d, v.required s d h);
    closed = λ s d h.
        ground (arith, contains-adjust a b g.hard_deps there_a s d, v.closed s d, known_a, known_b);
    distinct = λ s.
        let (hard, required, back) = v.distinct s in
        (
          adjust-Distinct a b g.hard_deps there_a s hard,
          required,
          adjust-Distinct b a g.reverse_deps there_b s back,
        );
    distinct_services = v.distinct_services;
  }

  pub link_required-deps :
      (s d : String)
      → Set.contains d (dependencies_of (link_required a b g) s)
        ≡ ((same a s && same b d) || Set.contains d (dependencies_of g s))
  unfolding dependencies_of link_required
  link_required-deps s d = contains-adjust a b g.hard_deps there_a s d

  pub link_required-requires :
      (s d : String)
      → Set.contains d (requires_of (link_required a b g) s)
        ≡ ((same a s && same b d) || Set.contains d (requires_of g s))
  unfolding requires_of link_required
  link_required-requires s d = contains-adjust a b g.requires required_a s d

  pub link_required-IsWellFormed : IsWellFormed (link_required a b g)
  unfolding dependencies_of requires_of dependents_of link_required
  link_required-IsWellFormed = record {
    keyed = λ k h. ground (
      arith,
      v.keyed k h,
      has-adjust a b k g.hard_deps,
      has-adjust a b k g.requires,
      has-adjust b a k g.reverse_deps,
    );
    transposed = λ s d. ground (
      arith,
      contains-adjust a b g.hard_deps there_a s d,
      contains-adjust b a g.reverse_deps there_b d s,
      v.transposed s d,
    );
    required = λ s d h. ground (
      arith,
      contains-adjust a b g.requires required_a s d,
      v.required s d,
      contains-adjust a b g.hard_deps there_a s d,
    );
    closed = λ s d h.
        ground (arith, contains-adjust a b g.hard_deps there_a s d, v.closed s d, known_a, known_b);
    distinct = λ s.
        let (hard, required, back) = v.distinct s in
        (
          adjust-Distinct a b g.hard_deps there_a s hard,
          adjust-Distinct a b g.requires required_a s required,
          adjust-Distinct b a g.reverse_deps there_b s back,
        );
    distinct_services = v.distinct_services;
  }
