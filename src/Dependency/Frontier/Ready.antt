-- ===== src/Dependency/Frontier/Ready.antt =====
-- `mark_ready` keeps the invariant.
use dynamod.Common.{
  suc, String, ◌≡◌, Bool, true, false, not, ◌&&◌, ◌||◌, arith, if◌then◌else◌, string_key,
}
use dynamod.Common.Map
use dynamod.Common.Set
use dynamod.Common.Set.{Distinct, contains-insert, contains-remove}
use dynamod.Dependency.Graph.{DependencyGraph, dependencies_of, dependents_of}
use dynamod.Dependency.Graph.Shape.{IsWellFormed, same}
use dynamod.Dependency.Frontier.{
  StartupFrontier, mark_ready, begin_ready, release_all, not_blocked, not_begun,
}
use dynamod.Dependency.Frontier.Count.{outstanding_settle}
use dynamod.Dependency.Frontier.Visit.{
  SameSets, visit-SameSets, lookup-visit, queue-visit, queue-visit-Distinct, pred_of, reaches_zero,
}
use dynamod.Dependency.Frontier.Invariant.{Inv, settled, left}

module _ (x : String) (g : DependencyGraph) (f : StartupFrontier) (shape : IsWellFormed g)
    (inv : Inv g f) (running : Set.contains x f.pending ≡ true) where
  after : StartupFrontier
  after = mark_ready x g f

  dependents : Distinct (dependents_of g x)
  dependents = (shape.distinct x).2

  after-SameSets : SameSets (begin_ready x f) after
  unfolding after mark_ready release_all
  after-SameSets =
      visit-SameSets not_blocked not_begun (λ s a b h. ground (arith, h.blocked))
        (λ s a b h. ground (arith, h.completed, h.pending)) (dependents_of g x) (begin_ready x f)

  completed_after :
      (s : String) → Set.contains s after.completed ≡ (same x s || Set.contains s f.completed)
  completed_after s = ground (arith, after-SameSets.completed, contains-insert x s f.completed)

  pending_after :
      (s : String) → Set.contains s after.pending ≡ (not (same x s) && Set.contains s f.pending)
  pending_after s = ground (arith, after-SameSets.pending, contains-remove x s f.pending)

  ready_after : (s : String) → Set.contains s after.ready ≡ (same x s || Set.contains s f.ready)
  ready_after s = ground (arith, after-SameSets.ready, contains-insert x s f.ready)

  blocked_after : after.blocked ≡ f.blocked
  blocked_after = after-SameSets.blocked

  x_unsettled : settled f x ≡ false
  x_unsettled = ground (arith, inv.begun x running)

  settled_after : (d : String) → settled after d ≡ (same x d || settled f d)
  settled_after d = ground (arith, completed_after d, blocked_after, inv.begun x running)

  -- The dependents of `x` have one dependency fewer, the others as many as before.
  left_after :
      (s : String)
      → left g f s
        ≡ (if Set.contains s (dependents_of g x) then suc (left g after s) else left g after s)
  left_after s = ground (
    arith,
    shape.transposed s x,
    outstanding_settle (settled f) (settled after) x (dependencies_of g s) (shape.distinct s).0
        x_unsettled settled_after,
  )

  unmet_after :
      (s : String)
      → Map.lookup s after.unmet ≡ (
          if Set.contains s (dependents_of g x) && not (Set.contains s f.blocked)
          then pred_of (Map.lookup s f.unmet)
          else Map.lookup s f.unmet)
  unfolding after mark_ready release_all
  unmet_after s =
      lookup-visit not_blocked not_begun (λ s a b h. ground (arith, h.blocked))
        (λ s a b h. ground (arith, h.completed, h.pending)) (dependents_of g x) (begin_ready x f)
        dependents s

  -- Whether `mark_ready` puts `s` on the queue.
  abbrev joins : String → Bool
  joins s =
      Set.contains s (dependents_of g x)
      && (not (Set.contains s f.blocked)
          && (reaches_zero (Map.lookup s f.unmet) && not_begun s (begin_ready x f)))

  queue_after :
      (s : String)
      → Set.contains s after.ready_to_start ≡ (Set.contains s f.ready_to_start || joins s)
  unfolding after mark_ready release_all
  queue_after s =
      queue-visit not_blocked not_begun (λ s a b h. ground (arith, h.blocked))
        (λ s a b h. ground (arith, h.completed, h.pending)) (dependents_of g x) (begin_ready x f)
        dependents s

  known_dependent :
      (s : String) → Set.contains s (dependents_of g x) ≡ true → Set.contains s g.services ≡ true
  known_dependent s h = ground (arith, shape.transposed s x, shape.closed s x)

  -- A service that joins had one dependency left, and is new to the queue.
  joins-left :
      (s : String)
      → joins s ≡ true
      → (Set.contains s g.services ≡ true)
        × (Set.contains s f.blocked ≡ false)
        × (left g f s ≡ 1)
        × (left g after s ≡ 0)
  joins-left s h = ground (arith, known_dependent s, inv.counted s, left_after s)

  queue_after-Distinct : Distinct after.ready_to_start
  unfolding after mark_ready release_all
  queue_after-Distinct =
      queue-visit-Distinct not_blocked not_begun (λ s a b h. ground (arith, h.blocked))
        (λ s a b h. ground (arith, h.completed, h.pending)) (dependents_of g x) (begin_ready x f)
        dependents inv.distinct (λ s h. ground (arith, joins-left s, inv.queued s))

  Inv-after : Inv g after
  Inv-after = record {
    counted = λ s known free.
        ground (arith, unmet_after s, left_after s, blocked_after, inv.counted s known);
    uncounted = λ s unknown. ground (arith, unmet_after s, known_dependent s, inv.uncounted s);
    queued = λ s h. ground (
      arith,
      queue_after s,
      joins-left s,
      blocked_after,
      completed_after s,
      pending_after s,
      inv.queued s,
      left_after s,
      inv.begun x running,
      contains-insert x s f.completed,
      contains-remove x s f.pending,
    );
    begun = λ s h.
        ground
          (arith, pending_after s, completed_after s, blocked_after, left_after s, inv.begun s);
    ended = λ s h free.
        ground
          (arith, completed_after s, blocked_after, left_after s, inv.ended s, inv.begun x running);
    hard = λ s d h free e.
        ground (arith, settled_after d, ready_after d, blocked_after, inv.hard s d h);
    cascade = λ s d h e. ground (arith, blocked_after, inv.cascade s d h);
    woken = λ s known free e. ground (
      arith,
      queue_after s,
      pending_after s,
      completed_after s,
      left_after s,
      inv.counted s known,
      inv.woken s known,
      blocked_after,
      contains-insert x s f.completed,
      contains-remove x s f.pending,
    );
    distinct = queue_after-Distinct;
  }

-- Marking a running service ready keeps the invariant of the frontier.
pub mark_ready-Inv :
    (x : String) (g : DependencyGraph) (f : StartupFrontier)
    → IsWellFormed g
    → Inv g f
    → Set.contains x f.pending ≡ true
    → Inv g (mark_ready x g f)
unfolding after
mark_ready-Inv x g f shape inv running = Inv-after x g f shape inv running

pub pending-mark_ready :
    (x : String) (g : DependencyGraph) (f : StartupFrontier)
    → IsWellFormed g
    → Inv g f
    → Set.contains x f.pending ≡ true
    → (s : String)
    → Set.contains s (mark_ready x g f).pending ≡ (not (same x s) && Set.contains s f.pending)
unfolding after
pending-mark_ready x g f shape inv running s = pending_after x g f shape inv running s
