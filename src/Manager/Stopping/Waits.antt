-- ===== src/Manager/Stopping/Waits.antt =====
-- Waiting for a process ends, if time passes.
use dynamod.Common.{
  ℕ, zero, suc, ◌+◌, ◌-◌, ◌*◌, ◌<◌, ◌≤◌, ◌⊎◌, ◌≡◌, refl, sym, subst, ◌∙◌, Bool, true, false, some,
  arith, inl, inr, leb, Bool-cases, string_key,
}
use dynamod.Process.Readiness.{second}
use dynamod.Manager.World.{WaitStatus, Manager, kill, tick, call, sleep, instant}
use dynamod.Manager.Stopping.Signals.{
  Later, Later-refl, Later-trans, Later-tick, Later-call, SeenOver,
}
use dynamod.Manager.Stopping.{Answers, await_within, await_end, escalate_kill, is_not_alive}

-- The clock is later at each moment than at the one before.
abbrev pub IsPassing : Manager → Type 0
IsPassing m = (n : ℕ) → m.clock n < m.clock (suc n)

-- What a wait does: the tree stays as it is, and `waitpid` gave one of the answers waited for or the
-- deadline has passed.
pub record Waited (over : WaitStatus → Bool) (answers : Answers) (pid deadline : ℕ) (m : Manager)
    (r : Manager × Bool) : Type 0 where
  pub same_tree : r.0.tree ≡ m.tree
  pub later : Later m r.0
  pub verdict : SeenOver over answers pid m r.0 ⊎ ((r.1 ≡ false) × (deadline ≤ instant r.0))

sooner :
    (fuel deadline : ℕ) (m : Manager)
    → IsPassing m
    → instant (tick m) < deadline
    → deadline - instant m < suc fuel
    → deadline - instant (call (sleep 50) (tick (tick m))) < fuel
unfolding tick call
sooner fuel deadline m passing early h =
    let n = m.moment in omega (arith, early, h, passing n, passing (suc n), passing (suc (suc n)))

tree_killed : (pid : ℕ) (m : Manager) → (tick (call (kill pid) m)).tree ≡ m.tree
unfolding tick call
tree_killed pid m = refl

module _ (over : WaitStatus → Bool) (answers : Answers) (pid deadline : ℕ) (m : Manager) where
  seen_now : over (answers m.moment pid) ≡ true → Waited over answers pid deadline m (tick m, true)
  unfolding tick
  seen_now e = record {
    same_tree = refl;
    later = Later-tick m;
    verdict = inl (m.moment, omega arith, omega arith, e);
  }

  too_late :
      IsPassing m
      → leb deadline (instant (tick m)) ≡ true
      → Waited over answers pid deadline m (tick (tick m), false)
  unfolding tick
  too_late passing late = record {
    same_tree = refl;
    later = Later-trans (Later-tick m) (Later-tick (tick m));
    verdict = inr (refl, ground (arith, late, passing (suc m.moment)));
  }

  later_verdict :
      (r : Manager × Bool)
      → Waited over answers pid deadline (call (sleep 50) (tick (tick m))) r
      → Waited over answers pid deadline m r
  unfolding tick call
  later_verdict r w = record {
    same_tree = w.same_tree;
    later = Later-trans (Later-tick m) (
        Later-trans (Later-tick (tick m))
          (Later-trans (Later-call (sleep 50) (tick (tick m))) w.later));
    verdict = elim w.verdict [
      | inl (n, from, to, e) ↦ inl (n, omega (arith, from), to, e)
      | inr late ↦ inr late
    ];
  }

after_sleep : (m : Manager) → IsPassing m → IsPassing (call (sleep 50) (tick (tick m)))
unfolding tick call
after_sleep m passing = passing

await_within-returns :
    (over : WaitStatus → Bool) (answers : Answers) (fuel pid deadline : ℕ) (m : Manager)
    → IsPassing m
    → deadline - instant m < fuel
    → (r : Manager × Bool) × (await_within over answers fuel pid deadline m ≡ some r)
      × Waited over answers pid deadline m r
unfolding await_within
await_within-returns over answers zero pid deadline m passing h = absurd (omega (arith, h))
await_within-returns over answers (suc fuel) pid deadline m passing h =
    elim (Bool-cases (over (answers m.moment pid))) [
      | inl e ↦ ((tick m, true), ground (arith, e), seen_now over answers pid deadline m e)
      | inr e ↦ elim (Bool-cases (leb deadline (instant (tick m)))) [
        | inl late ↦ (
          (tick (tick m), false),
          ground (arith, e, late),
          too_late over answers pid deadline m passing late,
        )
        | inr early ↦
            let next = call (sleep 50) (tick (tick m)) in
            let (r, returns, w) =
              await_within-returns over answers fuel pid deadline next (after_sleep m passing)
                (sooner fuel deadline m passing (ground (arith, early)) h) in
            (r, ground (arith, e, early, returns), later_verdict over answers pid deadline m r w)
      ]
    ]

pub await_end-returns :
    (over : WaitStatus → Bool) (answers : Answers) (pid deadline : ℕ) (m : Manager)
    → IsPassing m
    → (r : Manager × Bool) × (await_end over answers pid deadline m ≡ some r)
      × Waited over answers pid deadline m r
unfolding await_end
await_end-returns over answers pid deadline m passing =
    await_within-returns over answers (suc (deadline - instant m)) pid deadline m passing
      (omega arith)

pub IsPassing-Later : {m r : Manager} → Later m r → IsPassing m → IsPassing r
IsPassing-Later q passing = subst (λ c. (n : ℕ) → c n < c (suc n)) (sym q.same_clock) passing

-- The end of the wait for a process, escalated if need be, from `m` on.
pub record Escalated (answers : Answers) (pid : ℕ) (m : Manager) (b : Bool) (r : Manager)
    : Type 0 where
  pub same_tree : r.tree ≡ m.tree
  pub later : Later m r
  pub killed : b ≡ false → Later (call (kill pid) m) r

pub escalate_kill-returns :
    (answers : Answers) (pid : ℕ) (m : Manager) (b : Bool)
    → IsPassing m
    → (r : Manager) × (escalate_kill answers pid (m, b) ≡ some r) × Escalated answers pid m b r
unfolding escalate_kill
escalate_kill-returns answers pid m true passing =
    (m, refl, record { same_tree = refl; later = Later-refl m; killed = λ e. absurd (cc) })
escalate_kill-returns answers pid m false passing =
    let killed = call (kill pid) m in
    let first : Later m (tick killed) = Later-trans (Later-call (kill pid) m) (Later-tick killed) in
    let (r, returns, w) =
      await_end-returns is_not_alive answers pid (instant killed + 3 * second) (tick killed)
        (IsPassing-Later first passing) in
    (
      r.0,
      ground (arith, returns),
      record {
        same_tree = w.same_tree ∙ tree_killed pid m;
        later = Later-trans first w.later;
        killed = λ e. Later-trans (Later-tick killed) w.later;
      },
    )
