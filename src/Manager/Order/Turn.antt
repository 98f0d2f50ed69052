-- ===== src/Manager/Order/Turn.antt =====
-- One turn of the loop, part by part, keeps `Follows`.
use dynamod.Common.{
  ℕ, String, ◌≡◌, refl, Bool, true, false, List, [], ◌∷◌, arith, Bool-cases, inl, inr, string_key,
}
use mathlib.Core.Option
use dynamod.Common.Map.{lookup-insert}
use dynamod.Common.Set
use dynamod.Common.Set.{Distinct, contains-insert, contains-remove}
use dynamod.Dependency.Frontier.{mark_ready, mark_failed}
use dynamod.Dependency.Frontier.Failed.{mark_failed-returns, pending-mark_failed}
use dynamod.Dependency.Frontier.Order.{next, readied, failed, Reach-Inv}
use dynamod.Dependency.Frontier.Ready.{pending-mark_ready}
use dynamod.Dependency.Graph.{DependencyGraph}
use dynamod.Dependency.Graph.Shape.{IsWellFormed}
use dynamod.Process.Readiness.{ReadinessTracker}
use dynamod.Supervisor.Lifecycle.{ExitInfo, is_normal}
use dynamod.Manager.Preserved.{Returns}
use dynamod.Manager.Startup.{StartUp, with_frontier, oneshot_done, finish_oneshot, place}
use dynamod.Manager.Order.{Follows, is_tracked, settle}

module _ (g : DependencyGraph) (shape : IsWellFormed g) where
  -- Nothing in the loop waits for `x`.
  abbrev pub Alone : String → List String → StartUp → Type 0
  Alone x rest s =
      (Set.contains x s.pending_oneshots ≡ false)
      × (is_tracked x s ≡ false)
      × (Set.contains x rest ≡ false)

  pub readied-Follows :
      (rest : List String) (x : String) (s : StartUp)
      → Follows g rest s
      → Set.contains x s.frontier.pending ≡ true
      → Alone x rest s
      → Follows g rest (with_frontier s (mark_ready x g s.frontier))
  readied-Follows rest x s v starting alone =
      settle g rest x s (mark_ready x g s.frontier) v
        (next s.frontier (mark_ready x g s.frontier) v.reach (readied x s.frontier starting))
        (pending-mark_ready x g s.frontier shape (Reach-Inv g shape s.frontier v.reach) starting)
        alone.0 alone.1 alone.2

  pub failed-Follows :
      (rest : List String) (x : String) (s : StartUp)
      → Follows g rest s
      → Set.contains x s.frontier.pending ≡ true
      → Alone x rest s
      → Returns (Follows g rest) (Option.map (with_frontier s) (mark_failed x g s.frontier))
  failed-Follows rest x s v starting alone =
      let (f, returns) = mark_failed-returns x g s.frontier in
      (
        with_frontier s f,
        rw returns refl,
        settle g rest x s f v (next s.frontier f v.reach (failed x s.frontier f starting returns))
            (pending-mark_failed x g s.frontier f shape (Reach-Inv g shape s.frontier v.reach)
              starting returns)
            alone.0 alone.1 alone.2,
      )

  oneshot_done-Follows :
      (x : String) (pid : ℕ) (exit : ExitInfo) (s : StartUp)
      → Follows g [] s
      → Follows g [] (oneshot_done x pid exit s)
  oneshot_done-Follows x pid exit s v = record {
    reach = v.reach;
    oneshots = λ y h. ground (arith, h, contains-remove x y s.pending_oneshots, v.oneshots y);
    tracked = v.tracked;
    batch = v.batch;
    distinct = v.distinct;
  }

  pub finish_oneshot-Follows :
      (x : String) (pid : ℕ) (exit : ExitInfo) (s : StartUp)
      → Set.contains x s.pending_oneshots ≡ true
      → Follows g [] s
      → Returns (Follows g []) (finish_oneshot g x pid exit s)
  unfolding finish_oneshot Set.contains
  finish_oneshot-Follows x pid exit s waited v =
      let (starting, untracked, out) = v.oneshots x waited in
      let alone : Alone x [] (oneshot_done x pid exit s) =
        (ground (arith, contains-remove x x s.pending_oneshots), untracked, refl) in
      let done = oneshot_done-Follows x pid exit s v in
      elim (Bool-cases (is_normal exit)) [
        | inl well ↦ rw (finish_oneshot, well) (_, refl, readied-Follows [] x _ done starting alone)
        | inr badly ↦ rw (finish_oneshot, badly) (failed-Follows [] x _ done starting alone)
      ]

  pub put_off :
      (x : String) (rest : List String) (s : StartUp) → Follows g (x ∷ rest) s → Follows g rest s
  unfolding Set.contains
  put_off x rest s v = record {
    reach = v.reach;
    oneshots = λ y h. ground (arith, h, v.oneshots y);
    tracked = λ y h. ground (arith, h, v.tracked y);
    batch = λ y h. ground (arith, h, v.batch y);
    distinct = v.distinct.1;
  }

  place_tracker-Follows :
      (is_oneshot : Bool) (x : String) (rest : List String) (t : ReadinessTracker) (s : StartUp)
      → Follows g (x ∷ rest) s
      → Follows g rest (place is_oneshot false x t g s)
  unfolding Set.contains
  place_tracker-Follows is_oneshot x rest t s v = record {
    reach = v.reach;
    oneshots = λ y h. ground (arith, h, v.oneshots y, lookup-insert x y t s.readiness_trackers);
    tracked = λ y h.
        ground
          (arith, h, v.tracked y, v.batch x, v.distinct, lookup-insert x y t s.readiness_trackers);
    batch = λ y h. ground (arith, h, v.batch y);
    distinct = v.distinct.1;
  }

  -- The first service of the rest is placed with one of the three that wait, or is ready.
  pub place-Follows :
      (is_oneshot is_immediate : Bool) (x : String) (rest : List String) (t : ReadinessTracker)
      (s : StartUp)
      → Follows g (x ∷ rest) s
      → Follows g rest (place is_oneshot is_immediate x t g s)
  unfolding Set.contains
  place-Follows true true x rest t s v = record {
    reach = v.reach;
    oneshots = λ y h. ground (
      arith,
      h,
      v.distinct,
      contains-insert x y s.pending_oneshots,
      v.oneshots y,
      v.tracked y,
      v.tracked x,
      v.batch y,
    );
    tracked = λ y h. ground (arith, h, v.tracked y);
    batch = λ y h. ground (arith, h, v.batch y);
    distinct = v.distinct.1;
  }
  place-Follows false true x rest t s v =
      readied-Follows rest x s (put_off x rest s v) (ground (arith, v.batch x))
        (ground (arith, v.oneshots x, v.tracked x, v.distinct))
  place-Follows true false x rest t s v = place_tracker-Follows true x rest t s v
  place-Follows false false x rest t s v = place_tracker-Follows false x rest t s v
