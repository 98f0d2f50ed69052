-- ===== src/Dependency/Frontier/Failed.antt =====
-- `mark_failed` ends, and keeps the invariant.
use dynamod.Common.{
  suc, ◌<◌, String, ◌≡◌, refl, Bool, true, false, List, not, ◌&&◌, ◌||◌, ◌⊎◌, inl, inr, some, arith,
  if◌then◌else◌, Bool-cases, string_key,
}
use dynamod.Common.Map
use dynamod.Common.Set
use dynamod.Common.Set.{Distinct, contains-insert, contains-remove}
use dynamod.Dependency.Graph.{DependencyGraph, dependencies_of, dependents_of, requires_of}
use dynamod.Dependency.Graph.Shape.{IsWellFormed, same}
use dynamod.Dependency.Frontier.{
  StartupFrontier, mark_failed, begin_failed, notify, waits_softly, unblocked_not_begun,
  hard_dependents,
}
use dynamod.Dependency.Frontier.Count.{
  outstanding, outstanding_settle, outstanding_pos, outstanding_same,
}
use dynamod.Dependency.Frontier.Visit.{
  SameSets, visit-SameSets, lookup-visit, queue-visit, queue-visit-Distinct, pred_of, reaches_zero,
}
use dynamod.Dependency.Frontier.Blocking.{
  Blocked, block_all-Blocked, block_all-only, block_all-returns, contains-hard_dependents,
}
use dynamod.Dependency.Frontier.Invariant.{Inv, settled, left}

-- Whatever the graph and the frontier, `mark_failed` returns: its loop has enough fuel.
pub mark_failed-returns :
    (x : String) (g : DependencyGraph) (f : StartupFrontier)
    → (r : StartupFrontier) × (mark_failed x g f ≡ some r)
unfolding mark_failed
mark_failed-returns x g f =
    block_all-returns _ g (hard_dependents x g (dependents_of g x))
      (notify x g (dependents_of g x) (begin_failed x f)) (omega arith)

module _ (x : String) (g : DependencyGraph) (f r : StartupFrontier) (shape : IsWellFormed g)
    (inv : Inv g f) (running : Set.contains x f.pending ≡ true)
    (returns : mark_failed x g f ≡ some r) where
  hard_list : List String
  hard_list = hard_dependents x g (dependents_of g x)

  told : StartupFrontier
  told = notify x g (dependents_of g x) (begin_failed x f)

  blocked : Blocked g hard_list told r
  unfolding hard_list told mark_failed
  blocked = block_all-Blocked g shape _ hard_list told r returns

  told_sets : SameSets (begin_failed x f) told
  unfolding told notify
  told_sets =
      visit-SameSets (waits_softly x g) unblocked_not_begun (λ s a b h. refl)
        (λ s a b h. ground (arith, h.completed, h.pending, h.blocked)) (dependents_of g x)
        (begin_failed x f)

  unmet_told :
      (s : String)
      → Map.lookup s told.unmet ≡ (
          if Set.contains s (dependents_of g x) && not (Set.contains x (requires_of g s))
          then pred_of (Map.lookup s f.unmet)
          else Map.lookup s f.unmet)
  unfolding told notify
  unmet_told s =
      lookup-visit (waits_softly x g) unblocked_not_begun (λ s a b h. refl)
        (λ s a b h. ground (arith, h.completed, h.pending, h.blocked)) (dependents_of g x)
        (begin_failed x f) (shape.distinct x).2 s

  -- Whether the first loop puts `s` on the queue.
  abbrev joins : String → Bool
  joins s =
      Set.contains s (dependents_of g x)
      && (not (Set.contains x (requires_of g s))
          && (reaches_zero (Map.lookup s f.unmet) && unblocked_not_begun s (begin_failed x f)))

  queue_told :
      (s : String)
      → Set.contains s told.ready_to_start ≡ (Set.contains s f.ready_to_start || joins s)
  unfolding told notify
  queue_told s =
      queue-visit (waits_softly x g) unblocked_not_begun (λ s a b h. refl)
        (λ s a b h. ground (arith, h.completed, h.pending, h.blocked)) (dependents_of g x)
        (begin_failed x f) (shape.distinct x).2 s

  x_unsettled : settled f x ≡ false
  x_unsettled = ground (arith, inv.begun x running)

  -- `d` is settled once `x` is.
  abbrev later : String → Bool
  later d = same x d || settled f d

  left_later :
      (s : String)
      → left g f s ≡ (
          if Set.contains s (dependents_of g x)
          then suc (outstanding later (dependencies_of g s))
          else outstanding later (dependencies_of g s))
  left_later s = ground (
    arith,
    shape.transposed s x,
    outstanding_settle (settled f) later x (dependencies_of g s) (shape.distinct s).0 x_unsettled
        (λ d. refl),
  )

  -- What holds of every service that the loop blocks.
  abbrev IsHeld : String → Type 0
  IsHeld s =
      (0 < left g f s)
      × ((Set.contains x (requires_of g s) ≡ true) ⊎ (0 < outstanding later (dependencies_of g s)))

  IsHeld-listed : (s : String) → Set.contains s hard_list ≡ true → IsHeld s
  unfolding hard_list
  IsHeld-listed s h = ground (
    arith,
    contains-hard_dependents x g (dependents_of g x) s,
    shape.required s x,
    outstanding_pos (settled f) x (dependencies_of g s),
    x_unsettled,
  )

  IsHeld-step : (s svc : String) → IsHeld svc → Set.contains svc (requires_of g s) ≡ true → IsHeld s
  IsHeld-step s svc held h =
      let waits = shape.required s svc h in
      let unsettled : settled f svc ≡ false = ground (arith, inv.ended svc, held.0) in
      let other : same x svc ≡ false = ground (arith, inv.begun x running, held.0) in
      (
        outstanding_pos (settled f) svc (dependencies_of g s) waits unsettled,
        inr (outstanding_pos later svc (dependencies_of g s) waits (ground arith)),
      )

  -- A service that was not blocked before and is now was held.
  newly-IsHeld :
      (s : String) → Set.contains s r.blocked ≡ true → Set.contains s f.blocked ≡ false → IsHeld s
  unfolding mark_failed hard_list told
  newly-IsHeld s h o =
      block_all-only g shape IsHeld IsHeld-step _ hard_list told r returns IsHeld-listed s h
        (ground (arith, told_sets.blocked))

  completed_r :
      (s : String)
      → Set.contains s r.completed ≡ (
          (same x s || Set.contains s f.completed)
          || (Set.contains s r.blocked && not (Set.contains s f.blocked)))
  completed_r s = ground (
    arith,
    blocked.completes s,
    told_sets.completed,
    told_sets.blocked,
    contains-insert x s f.completed,
  )

  pending_r : (s : String) → Set.contains s r.pending ≡ (not (same x s) && Set.contains s f.pending)
  pending_r s =
      ground (arith, blocked.same_pending, told_sets.pending, contains-remove x s f.pending)

  still_blocked : (s : String) → Set.contains s f.blocked ≡ true → Set.contains s r.blocked ≡ true
  still_blocked s h = ground (arith, blocked.keeps s, told_sets.blocked)

  settled_r : (d : String) → settled r d ≡ later d
  settled_r d = elim (Bool-cases (Set.contains d f.blocked)) [
    | inl old ↦ ground (arith, completed_r d, still_blocked d, inv.begun x running)
    | inr free ↦ elim (Bool-cases (Set.contains d r.blocked)) [
      | inl new ↦
          let held = newly-IsHeld d new free in
          ground (arith, completed_r d, held.0, inv.begun x running, inv.ended d)
      | inr still_free ↦ ground (arith, completed_r d)
    ]
  ]

  left_r : (s : String) → left g r s ≡ outstanding later (dependencies_of g s)
  left_r s = outstanding_same later (settled r) (dependencies_of g s) settled_r

  -- A service that requires `x` is blocked, and a blocked one was so or was held.
  requirer_blocked :
      (s : String) → Set.contains x (requires_of g s) ≡ true → Set.contains s r.blocked ≡ true
  unfolding hard_list
  requirer_blocked s h = ground (
    arith,
    blocked.covers s,
    contains-hard_dependents x g (dependents_of g x) s,
    shape.required s x,
    shape.transposed s x,
  )

  free_of_zero :
      (s : String)
      → left g f s ≡ 0
      → Set.contains s f.blocked ≡ false
      → Set.contains s r.blocked ≡ false
  free_of_zero s e free = elim (Bool-cases (Set.contains s r.blocked)) [
    | inl new ↦ let held = newly-IsHeld s new free in absurd (omega (arith, held.0))
    | inr still ↦ still
  ]

  -- A service that joins the queue had `x` alone left, and is not blocked.
  joins-left :
      (s : String)
      → joins s ≡ true
      → (Set.contains s g.services ≡ true)
        × (Set.contains s r.blocked ≡ false)
        × (left g f s ≡ 1)
        × (left g r s ≡ 0)
  joins-left s h =
      let known : Set.contains s g.services ≡ true =
        ground (arith, shape.transposed s x, shape.closed s x) in
      let free : Set.contains s f.blocked ≡ false = ground arith in
      let one : left g f s ≡ 1 = ground (arith, inv.counted s known free, left_later s) in
      let none_later : outstanding later (dependencies_of g s) ≡ 0 = ground (arith, left_later s) in
      (
        known,
        elim (Bool-cases (Set.contains s r.blocked)) [
          | inl new ↦ let held = newly-IsHeld s new free in absurd (ground (arith, held.1))
          | inr still ↦ still
        ],
        one,
        ground (arith, left_r s),
      )

  unmet_r :
      (s : String)
      → Map.lookup s r.unmet ≡ (
          if Set.contains s (dependents_of g x) && not (Set.contains x (requires_of g s))
          then pred_of (Map.lookup s f.unmet)
          else Map.lookup s f.unmet)
  unmet_r s = ground (arith, unmet_told s, blocked.same_unmet)

  queue_r :
      (s : String) → Set.contains s r.ready_to_start ≡ (Set.contains s f.ready_to_start || joins s)
  queue_r s = ground (arith, queue_told s, blocked.same_queue)

  told-Distinct : Distinct told.ready_to_start
  unfolding told notify
  told-Distinct =
      queue-visit-Distinct (waits_softly x g) unblocked_not_begun (λ s a b h. refl)
        (λ s a b h. ground (arith, h.completed, h.pending, h.blocked)) (dependents_of g x)
        (begin_failed x f) (shape.distinct x).2 inv.distinct
        (λ s h. ground (arith, joins-left s h, inv.queued s))

  -- A service that is not blocked after the call does not require `x` and was not blocked before.
  free_r :
      (s : String)
      → Set.contains s r.blocked ≡ false
      → (Set.contains s f.blocked ≡ false) × (Set.contains x (requires_of g s) ≡ false)
  free_r s free = ground (arith, still_blocked s, requirer_blocked s)

  known_dependent :
      (s : String) → Set.contains s (dependents_of g x) ≡ true → Set.contains s g.services ≡ true
  known_dependent s h = ground (arith, shape.transposed s x, shape.closed s x)

  counted_r :
      (s : String)
      → Set.contains s g.services ≡ true
      → Set.contains s r.blocked ≡ false
      → Map.lookup s r.unmet ≡ some (left g r s)
  counted_r s known free =
      let was = free_r s free in
      ground (arith, unmet_r s, left_r s, left_later s, inv.counted s known was.0)

  queued_r :
      (s : String)
      → Set.contains s r.ready_to_start ≡ true
      → (Set.contains s g.services ≡ true)
        × (Set.contains s r.blocked ≡ false)
        × (Set.contains s r.completed ≡ false)
        × (Set.contains s r.pending ≡ false)
        × (left g r s ≡ 0)
  queued_r s h = ground (
    arith,
    queue_r s,
    joins-left s,
    free_of_zero s,
    completed_r s,
    pending_r s,
    inv.queued s,
    left_r s,
    left_later s,
    inv.begun x running,
    contains-insert x s f.completed,
    contains-remove x s f.pending,
  )

  hard_r :
      (s d : String)
      → Set.contains d (requires_of g s) ≡ true
      → Set.contains s r.blocked ≡ false
      → settled r d ≡ true
      → Set.contains d r.ready ≡ true
  hard_r s d h free e =
      let was = free_r s free in
      ground (arith, settled_r d, inv.hard s d h was.0, blocked.same_ready, told_sets.ready)

  cascade_r :
      (s d : String)
      → Set.contains d (requires_of g s) ≡ true
      → Set.contains d r.blocked ≡ true
      → Set.contains s r.blocked ≡ true
  cascade_r s d h e =
      ground (arith, blocked.closes s d h e, told_sets.blocked, inv.cascade s d h, still_blocked s)

  woken_r :
      (s : String)
      → Set.contains s g.services ≡ true
      → Set.contains s r.blocked ≡ false
      → left g r s ≡ 0
      → (Set.contains s r.ready_to_start
          || (Set.contains s r.pending || Set.contains s r.completed))
        ≡ true
  woken_r s known free e =
      let was = free_r s free in
      ground (
        arith,
        queue_r s,
        pending_r s,
        completed_r s,
        left_r s,
        left_later s,
        inv.counted s known was.0,
        inv.woken s known was.0,
        contains-insert x s f.completed,
        contains-remove x s f.pending,
      )

  Inv-r : Inv g r
  Inv-r = record {
    counted = counted_r;
    uncounted = λ s unknown. ground (arith, unmet_r s, known_dependent s, inv.uncounted s);
    queued = queued_r;
    begun = λ s h.
        ground
          (arith, pending_r s, completed_r s, left_r s, left_later s, inv.begun s, free_of_zero s);
    ended = λ s h free. ground (
      arith,
      completed_r s,
      free_r s free,
      left_r s,
      left_later s,
      inv.ended s,
      inv.begun x running,
    );
    hard = hard_r;
    cascade = cascade_r;
    woken = woken_r;
    distinct = ground (arith, told-Distinct, blocked.same_queue);
  }

-- Marking a running service failed keeps the invariant of the frontier.
pub mark_failed-Inv :
    (x : String) (g : DependencyGraph) (f r : StartupFrontier)
    → IsWellFormed g
    → Inv g f
    → Set.contains x f.pending ≡ true
    → mark_failed x g f ≡ some r
    → Inv g r
mark_failed-Inv x g f r shape inv running returns = Inv-r x g f r shape inv running returns

pub pending-mark_failed :
    (x : String) (g : DependencyGraph) (f r : StartupFrontier)
    → IsWellFormed g
    → Inv g f
    → Set.contains x f.pending ≡ true
    → mark_failed x g f ≡ some r
    → (s : String) → Set.contains s r.pending ≡ (not (same x s) && Set.contains s f.pending)
pending-mark_failed x g f r shape inv running returns s =
    pending_r x g f r shape inv running returns s
