-- ===== src/Dependency/Frontier/Blocking.antt =====
-- The loop that blocks the services whose requirement failed: it ends, blocks what is on its list
-- and all that require a blocked service, and blocks nothing else.
use dynamod.Common.{
  ℕ, zero, suc, ◌+◌, ◌≤◌, String, ◌≡◌, refl, true, false, not, ◌&&◌, ◌||◌, List, [], ◌∷◌, ◌++◌,
  some, arith, subst, Bool-cases, inl, inr, unwrap_or, string_key, string_discrete,
}
use dynamod.Common.Map
use dynamod.Common.Map.{Map}
use dynamod.Common.Set
use dynamod.Common.Set.{contains-insert}
use dynamod.Common.Lists.{length, length-append}
use dynamod.Dependency.Graph.{DependencyGraph, dependents_of, requires_of}
use dynamod.Dependency.Graph.Shape.{IsWellFormed}
use dynamod.Dependency.Frontier.{
  StartupFrontier, requirers, block, block_all, block_work, hard_dependents,
}

-- What the loop makes of the frontier `f` and the list `queue`.
pub record Blocked (g : DependencyGraph) (queue : List String) (f r : StartupFrontier)
    : Type 0 where
  pub same_unmet : r.unmet ≡ f.unmet
  pub same_queue : r.ready_to_start ≡ f.ready_to_start
  pub same_ready : r.ready ≡ f.ready
  pub same_pending : r.pending ≡ f.pending
  pub keeps : (s : String) → Set.contains s f.blocked ≡ true → Set.contains s r.blocked ≡ true
  pub completes :
      (s : String)
      → Set.contains s r.completed ≡ (
          Set.contains s f.completed
          || (Set.contains s r.blocked && not (Set.contains s f.blocked)))
  pub covers : (s : String) → Set.contains s queue ≡ true → Set.contains s r.blocked ≡ true
  pub closes :
      (s d : String)
      → Set.contains d (requires_of g s) ≡ true
      → Set.contains d r.blocked ≡ true
      → Set.contains d f.blocked ≡ false
      → Set.contains s r.blocked ≡ true

contains-append_lists :
    (k : String) (xs ys : List String)
    → Set.contains k (xs ++ ys) ≡ (Set.contains k xs || Set.contains k ys)
unfolding Set.contains
contains-append_lists k [] ys = refl
contains-append_lists k (x ∷ xs) ys = ground (arith, contains-append_lists k xs ys)

contains-requirers :
    (svc : String) (g : DependencyGraph) (blocked ds : List String) (s : String)
    → Set.contains s (requirers svc g blocked ds)
      ≡ (Set.contains s ds && (Set.contains svc (requires_of g s) && not (Set.contains s blocked)))
unfolding requirers Set.contains
contains-requirers svc g blocked [] s = refl
contains-requirers svc g blocked (d ∷ ds) s = ground (arith, contains-requirers svc g blocked ds s)

pub contains-hard_dependents :
    (x : String) (g : DependencyGraph) (ds : List String) (s : String)
    → Set.contains s (hard_dependents x g ds)
      ≡ (Set.contains s ds && Set.contains x (requires_of g s))
unfolding hard_dependents Set.contains
contains-hard_dependents x g [] s = refl
contains-hard_dependents x g (d ∷ ds) s = ground (arith, contains-hard_dependents x g ds s)

module _ (g : DependencyGraph) (shape : IsWellFormed g) where
  required_dependent :
      (s svc : String)
      → Set.contains svc (requires_of g s) ≡ true
      → Set.contains s (dependents_of g svc) ≡ true
  required_dependent s svc h = ground (arith, shape.required s svc, shape.transposed s svc)

  abbrev next_queue : String → List String → StartupFrontier → List String
  next_queue svc queue f = queue ++ requirers svc g (block svc f).blocked (dependents_of g svc)

  contains-next_queue :
      (svc : String) (queue : List String) (f : StartupFrontier) (s : String)
      → Set.contains s (next_queue svc queue f) ≡ (
          Set.contains s queue
          || (Set.contains s (dependents_of g svc)
              && (Set.contains svc (requires_of g s)
                  && not (Set.contains s (block svc f).blocked))))
  contains-next_queue svc queue f s = ground (
    arith,
    contains-append_lists s queue (requirers svc g (block svc f).blocked (dependents_of g svc)),
    contains-requirers svc g (block svc f).blocked (dependents_of g svc) s,
  )

  Blocked_done : (f : StartupFrontier) → Blocked g [] f f
  unfolding Set.contains
  Blocked_done f = record {
    same_unmet = refl;
    same_queue = refl;
    same_ready = refl;
    same_pending = refl;
    keeps = λ s h. h;
    completes = λ s. ground arith;
    covers = λ s h. cc;
    closes = λ s d h e o. cc;
  }

  -- A service that is blocked already is passed over; another is blocked, and its requirers join.
  Blocked_skip :
      (svc : String) (queue : List String) (f r : StartupFrontier)
      → Set.contains svc f.blocked ≡ true
      → Blocked g queue f r
      → Blocked g (svc ∷ queue) f r
  unfolding Set.contains
  Blocked_skip svc queue f r old b = record {
    same_unmet = b.same_unmet;
    same_queue = b.same_queue;
    same_ready = b.same_ready;
    same_pending = b.same_pending;
    keeps = b.keeps;
    completes = b.completes;
    covers = λ s h. ground (arith, b.covers s, b.keeps svc old);
    closes = b.closes;
  }

  Blocked_step :
      (svc : String) (queue : List String) (f r : StartupFrontier)
      → Set.contains svc f.blocked ≡ false
      → Blocked g (next_queue svc queue f) (block svc f) r
      → Blocked g (svc ∷ queue) f r
  unfolding block Set.contains
  Blocked_step svc queue f r new b =
      let blocked_now = λ (s : String). contains-insert svc s f.blocked in
      record {
        same_unmet = b.same_unmet;
        same_queue = b.same_queue;
        same_ready = b.same_ready;
        same_pending = b.same_pending;
        keeps = λ s h. ground (arith, b.keeps s, blocked_now s);
        completes = λ s.
            ground
              (arith, b.completes s, blocked_now s, contains-insert svc s f.completed, b.keeps svc);
        covers = λ s h.
            ground (arith, b.covers s, b.keeps s, blocked_now s, contains-next_queue svc queue f s);
        closes = λ s d h e o. ground (
          arith,
          b.closes s d h e,
          blocked_now d,
          b.covers s,
          contains-next_queue svc queue f s,
          required_dependent s d h,
          b.keeps s,
        );
      }

  pub block_all-Blocked :
      (fuel : ℕ) (queue : List String) (f r : StartupFrontier)
      → block_all fuel g queue f ≡ some r
      → Blocked g queue f r
  unfolding block_all
  block_all-Blocked zero [] f r e =
      let done : f ≡ r = ground arith in subst (Blocked g [] f) done (Blocked_done f)
  block_all-Blocked (suc fuel) [] f r e =
      let done : f ≡ r = ground arith in subst (Blocked g [] f) done (Blocked_done f)
  block_all-Blocked zero (svc ∷ queue) f r e = cc
  block_all-Blocked (suc fuel) (svc ∷ queue) f r e =
      elim (Bool-cases (Set.contains svc f.blocked)) [
        | inl old ↦ Blocked_skip svc queue f r old (block_all-Blocked fuel queue f r (ground arith))
        | inr new ↦
            Blocked_step svc queue f r new
              (block_all-Blocked fuel (next_queue svc queue f) (block svc f) r (ground arith))
      ]

  -- What holds of the list, and of all that require a service of which it holds, holds of every
  -- service that the loop blocks.
  pub block_all-only :
      (P : String → Type 0)
      → ((s svc : String) → P svc → Set.contains svc (requires_of g s) ≡ true → P s)
      → (fuel : ℕ) (queue : List String) (f r : StartupFrontier) → block_all fuel g queue f ≡ some r
      → ((s : String) → Set.contains s queue ≡ true → P s)
      → (s : String) → Set.contains s r.blocked ≡ true
      → Set.contains s f.blocked ≡ false
      → P s
  unfolding block_all
  block_all-only P step zero [] f r e listed s h o = absurd (ground arith)
  block_all-only P step (suc fuel) [] f r e listed s h o = absurd (ground arith)
  block_all-only P step zero (svc ∷ queue) f r e listed s h o = absurd (cc)
  block_all-only P step (suc fuel) (svc ∷ queue) f r e listed s h o =
      elim (Bool-cases (Set.contains svc f.blocked)) [
        | inl old ↦
            block_all-only P step fuel queue f r (ground arith)
              (λ t q. listed t (unfold Set.contains in ground arith)) s h o
        | inr new ↦ elim (string_discrete svc s) [
          | yes same ↦ subst P same (listed svc (unfold Set.contains in ground arith))
          | no other ↦
              block_all-only P step fuel (next_queue svc queue f) (block svc f) r (ground arith)
                (λ t q. elim (Bool-cases (Set.contains t queue)) [
                  | inl there ↦ listed t (unfold Set.contains in ground arith)
                  | inr not_there ↦
                      step t svc (listed svc (unfold Set.contains in ground arith))
                        (ground (arith, contains-next_queue svc queue f t))
                ])
                s h (unfold block in ground (arith, contains-insert svc s f.blocked))
        ]
      ]

-- The work left falls by the dependents of the service that is blocked.
block_work_mono :
    (svc : String) (b : List String) (m : Map String (List String))
    → block_work (Set.insert svc b) m ≤ block_work b m
unfolding block_work
block_work_mono svc b [] = omega arith
block_work_mono svc b ((k, ds) ∷ m) =
    ground (arith, block_work_mono svc b m, contains-insert svc k b)

pub block_work-insert :
    (svc : String) (b : List String) (m : Map String (List String))
    → Set.contains svc b ≡ false
    → block_work (Set.insert svc b) m + length (unwrap_or (Map.lookup svc m) []) ≤ block_work b m
unfolding block_work Map.lookup
block_work-insert svc b [] h = omega arith
block_work-insert svc b ((k, ds) ∷ m) h =
    ground (arith, block_work_mono svc b m, block_work-insert svc b m h, contains-insert svc k b)

length-requirers-le :
    (svc : String) (g : DependencyGraph) (blocked ds : List String)
    → length (requirers svc g blocked ds) ≤ length ds
unfolding requirers
length-requirers-le svc g blocked [] = omega arith
length-requirers-le svc g blocked (d ∷ ds) = ground (arith, length-requirers-le svc g blocked ds)

-- With fuel for its list and for the dependents of all that is not blocked the loop ends.
pub block_all-returns :
    (fuel : ℕ) (g : DependencyGraph) (queue : List String) (f : StartupFrontier)
    → length queue + block_work f.blocked g.reverse_deps ≤ fuel
    → (r : StartupFrontier) × (block_all fuel g queue f ≡ some r)
unfolding block_all
block_all-returns zero g [] f h = (f, refl)
block_all-returns (suc fuel) g [] f h = (f, refl)
block_all-returns zero g (svc ∷ queue) f h = absurd (omega arith)
block_all-returns (suc fuel) g (svc ∷ queue) f h = elim (Bool-cases (Set.contains svc f.blocked)) [
  | inl old ↦ let (r, e) = block_all-returns fuel g queue f (omega arith) in (r, ground arith)
  | inr new ↦
      let pushed = requirers svc g (block svc f).blocked (dependents_of g svc) in
      let fits : length (queue ++ pushed) + block_work (block svc f).blocked g.reverse_deps ≤ fuel =
        unfold block dependents_of in
        omega (
          arith,
          block_work-insert svc f.blocked g.reverse_deps new,
          length-append queue pushed,
          length-requirers-le svc g (block svc f).blocked (dependents_of g svc),
        ) in
      let (r, e) = block_all-returns fuel g (queue ++ pushed) (block svc f) fits in
      (r, ground arith)
]
