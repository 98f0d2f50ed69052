-- ===== src/Manager/Reaping.antt =====
-- The loop that reaps ended processes comes to an end, whatever it starts and stops meanwhile.
use dynamod.Common.{ℕ, zero, suc, ◌≤◌, ◌≡◌, refl, sym, subst, List, [], ◌∷◌, Option, arith}
use dynamod.Common.Lists.{length}
use dynamod.Manager.World
use dynamod.Manager.World.{
  Manager, WaitStatus, exited, signaled, still_alive, no_children, interrupted, other, tick, call,
  waited, wait_status, with_tree,
}
use dynamod.Manager.Exits.{on_status, reap_within, reap_and_handle_exits, with_code, with_signal}
use dynamod.Manager.Preserved.{Preserved, Returns, Returns-bind, handle_child_exit-Returns}

-- No more than `n` answers of `waitpid` are to come.
abbrev pub AtMost : ℕ → Manager → Type 0
AtMost n m = length m.waits ≤ n

pub AtMost-Preserved : (n : ℕ) → Preserved (AtMost n)
unfolding tick call waited
AtMost-Preserved n = record {
  ticked = λ m p. p;
  called = λ c m p. p;
  reaped = λ m p. shorter m.waits p;
  monitored = λ c m p. p;
  born = λ id s m e p. p;
  unborn = λ id m p. p;
  told = λ id m p. p;
  ended = λ id pid exit m e p. p;
  forgotten = λ pid m e p. p;
  judged = λ supervisor id exit now m p. p;
}
  where
    shorter : (ws : List WaitStatus) → length ws ≤ n → length (World.tail ws) ≤ n
    shorter [] p = p
    shorter (w ∷ ws) p = omega arith

abbrev pub Both : (Manager → Type 0) → (Manager → Type 0) → Manager → Type 0
Both P Q m = P m × Q m

pub Both-Preserved : {P Q : Manager → Type 0} → Preserved P → Preserved Q → Preserved (Both P Q)
Both-Preserved a b = record {
  ticked = λ m (p, q). (a.ticked m p, b.ticked m q);
  called = λ c m (p, q). (a.called c m p, b.called c m q);
  reaped = λ m (p, q). (a.reaped m p, b.reaped m q);
  monitored = λ c m (p, q). (a.monitored c m p, b.monitored c m q);
  born = λ id s m e (p, q). (a.born id s m e p, b.born id s m e q);
  unborn = λ id m (p, q). (a.unborn id m p, b.unborn id m q);
  told = λ id m (p, q). (a.told id m p, b.told id m q);
  ended = λ id pid exit m e (p, q). (a.ended id pid exit m e p, b.ended id pid exit m e q);
  forgotten = λ pid m e (p, q). (a.forgotten pid m e p, b.forgotten pid m e q);
  judged = λ s id exit now m (p, q). (a.judged s id exit now m p, b.judged s id exit now m q);
}

pub weaken :
    {A : Type 0} {P Q : A → Type 0} {o : Option A}
    → ((a : A) → P a → Q a)
    → Returns P o
    → Returns Q o
weaken h (r, e, p) = (r, e, h r p)

module _ {P : Manager → Type 0} (keep : Preserved P) where
  on_status-Returns :
      (reap : Manager → Option Manager)
      → ((m : Manager) → P m → Returns P (reap m))
      → (w : WaitStatus) (m : Manager) → P m
      → Returns P (on_status reap w m)
  unfolding on_status
  on_status-Returns reap turn (exited pid code) m p =
      Returns-bind reap turn (handle_child_exit-Returns keep reap turn pid (with_code code) m p)
  on_status-Returns reap turn (signaled pid sig) m p =
      Returns-bind reap turn (handle_child_exit-Returns keep reap turn pid (with_signal sig) m p)
  on_status-Returns reap turn still_alive m p = (m, refl, p)
  on_status-Returns reap turn no_children m p = (m, refl, p)
  on_status-Returns reap turn interrupted m p = turn m p
  on_status-Returns reap turn other m p = (m, refl, p)

module _ {P : Manager → Type 0} (keep : Preserved P) where
  turn_on :
      (reap : Manager → Option Manager) (m : Manager) (w : WaitStatus) (n : ℕ)
      → wait_status m ≡ w
      → Returns (Both P (AtMost n)) (on_status reap w (waited m))
      → Returns (Both P (AtMost n)) (on_status reap (wait_status m) (waited m))
  turn_on reap m w n e r =
      subst (λ s. Returns (Both P (AtMost n)) (on_status reap s (waited m))) (sym e) r

  turns :
      (n : ℕ) (ws : List WaitStatus) (m : Manager)
      → m.waits ≡ ws
      → length ws ≤ n
      → P m
      → Returns (Both P (AtMost (length ws))) (reap_within (suc n) m)
  unfolding reap_within on_status waited
  turns n [] m e le p =
      turn_on (reap_within n) m still_alive 0 (rw e refl)
        (waited m, refl, (keep.reaped m p, rw e (omega arith)))
  turns zero (w ∷ ws) m e le p = absurd (omega arith)
  turns (suc n) (w ∷ ws) m e le p =
      let next : (m' : Manager)
          → Both P (AtMost (length ws)) m'
          → Returns (Both P (AtMost (length ws))) (reap_within (suc n) m') =
        λ m' (p', short).
          weaken (λ r (q, shorter). (q, omega arith)) (turns n m'.waits m' refl (omega arith) p') in
      let began : Both P (AtMost (length ws)) (waited m) = (keep.reaped m p, rw e (omega arith)) in
      weaken (λ r (q, shorter). (q, omega arith))
        (turn_on (reap_within (suc n)) m w (length ws) (rw e refl) (
          on_status-Returns (Both-Preserved keep (AtMost-Preserved (length ws)))
            (reap_within (suc n)) next w (waited m) began))

  -- Reaping returns, and keeps what every step of it keeps.
  pub reap_and_handle_exits-Returns :
      (m : Manager) → P m → Returns (Both P (AtMost (length m.waits))) (reap_and_handle_exits m)
  unfolding reap_and_handle_exits
  reap_and_handle_exits-Returns m p = turns (length m.waits) m.waits m refl (omega arith) p
