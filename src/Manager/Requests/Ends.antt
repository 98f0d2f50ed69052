-- ===== src/Manager/Requests/Ends.antt =====
-- What the control socket asks for is carried out in finite time.
use dynamod.Common.{
  ℕ, zero, suc, ◌+◌, ◌-◌, ◌*◌, ◌<◌, ◌≤◌, ◌≡◌, refl, sym, ap, subst, false, List, [], ◌∷◌, Option,
  none, some, arith, inl, inr, dec_le, Bool-cases, string_key, String,
}
use mathlib.Core.Option
use dynamod.Common.Set
use dynamod.Config.Service.{ServiceDef}
use dynamod.Control.{
  ControlAction, start_worker, stop_worker, restart_worker, reload_configuration, shut_down,
}
use dynamod.Process.Readiness.{second}
use dynamod.Supervisor.Tree.{NodeId, SupervisorTree, Result, ok, err, add_worker, all_workers}
use dynamod.Supervisor.Tree.Invariant.{add_worker-IsWellFormed}
use dynamod.Manager.World.{Manager, tick, call, sleep, instant, waited, with_tree}
use dynamod.Manager.Workers
use dynamod.Manager.Workers.{pid_of}
use dynamod.Manager.Exits.{reap_and_handle_exits}
use dynamod.Manager.Preserved.{
  Preserved, Returns, Returns-map, Returns-bind, start_worker-Preserved, stop_worker-Preserved,
}
use dynamod.Manager.Reaping.{Both, Both-Preserved, reap_and_handle_exits-Returns}
use dynamod.Manager.Shape.{IsShaped, IsShaped-Preserved}
use dynamod.Manager.Requests.{
  is_gone, await_exit, await_old, restart, parent_id, names, launch, add_new, stop_missing,
  reload_services, Outcome, running, leaving, carry_out, dispatch_control_actions, go_on,
}

-- The clock is `c`, and it is moment `n` or later.
abbrev pub Timed : (ℕ → ℕ) → ℕ → Manager → Type 0
Timed c n m = (m.clock ≡ c) × (n ≤ m.moment)

pub Timed-Preserved : (c : ℕ → ℕ) (n : ℕ) → Preserved (Timed c n)
unfolding tick call waited
Timed-Preserved c n = record {
  ticked = λ m (e, le). (e, omega (arith, le));
  called = λ k m (e, le). (e, omega (arith, le));
  reaped = λ m (e, le). (e, omega (arith, le));
  monitored = λ k m p. p;
  born = λ id s m e p. p;
  unborn = λ id m p. p;
  told = λ id m p. p;
  ended = λ id pid exit m e p. p;
  forgotten = λ pid m e p. p;
  judged = λ supervisor id exit now m p. p;
}

-- The tree is well-formed besides.
abbrev pub Going : (ℕ → ℕ) → ℕ → Manager → Type 0
Going c n = Both IsShaped (Timed c n)

pub Going-Preserved : (c : ℕ → ℕ) (n : ℕ) → Preserved (Going c n)
Going-Preserved c n = Both-Preserved IsShaped-Preserved (Timed-Preserved c n)

-- The clock is no later at an earlier moment.
grows : (c : ℕ → ℕ) → ((n : ℕ) → c n < c (suc n)) → (n k : ℕ) → n ≤ k → c n ≤ c k
grows c passing n zero le =
    let same : n ≡ 0 = omega (arith, le) in subst (λ x. c x ≤ c 0) (sym same) (omega arith)
grows c passing n (suc k) le = elim (dec_le n k) [
  | yes before ↦ omega (arith, grows c passing n k before, passing k)
  | no after ↦
      let same : n ≡ suc k = omega (arith, le, after) in
      subst (λ x. c x ≤ c (suc k)) (sym same) (omega arith)
]

module _ (c : ℕ → ℕ) (passing : (n : ℕ) → c n < c (suc n)) where
  pub reaped-Going :
      (n : ℕ) (m : Manager) → Going c n m → Returns (Going c m.moment) (reap_and_handle_exits m)
  reaped-Going n m (shape, (e, le)) =
      let (r, returns, (p, fewer)) =
        reap_and_handle_exits-Returns (Going-Preserved c m.moment) m (shape, (e, omega arith)) in
      (r, returns, p)

  still :
      (id : NodeId) (pid deadline : ℕ) (r : Manager)
      → is_gone id pid deadline r ≡ false
      → instant r < deadline
  still id pid deadline r waiting = ground (arith, waiting)

  sooner :
      (fuel deadline : ℕ) (m r : Manager)
      → m.clock ≡ c
      → r.clock ≡ c
      → m.moment ≤ r.moment
      → instant r < deadline
      → deadline - instant m < suc fuel
      → deadline - r.clock (suc (suc r.moment)) < fuel
  sooner fuel deadline m r e e' later early h =
      let k = r.moment in
      omega (
        arith,
        early,
        h,
        grows c passing m.moment k later,
        passing k,
        passing (suc k),
        ap (λ f. f m.moment) e,
        ap (λ f. f k) e',
        ap (λ f. f (suc (suc k))) e',
      )

  -- The fuel is enough: each turn of the loop brings the deadline nearer.
  await_exit-Returns :
      (fuel n : ℕ) (id : NodeId) (pid deadline : ℕ) (m : Manager)
      → Going c n m
      → deadline - instant m < fuel
      → Returns (Going c n) (await_exit fuel id pid deadline m)
  unfolding await_exit tick call Option.bind
  await_exit-Returns zero n id pid deadline m p h = absurd (omega (arith, h))
  await_exit-Returns (suc fuel) n id pid deadline m (shape, (e, le)) h =
      let (r, reaps, (shape', (e', later))) = reaped-Going n m (shape, (e, le)) in
      elim (Bool-cases (is_gone id pid deadline r)) [
        | inl gone ↦ (
          tick r,
          rw (reaps) (rw (Option.bind, gone) refl),
          (shape', (e', omega (arith, later, le))),
        )
        | inr waiting ↦
            let next = call (sleep 50) (tick r) in
            let (q, returns, p) =
              await_exit-Returns fuel n id pid deadline next
                (shape', (e', omega (arith, later, le)))
                (sooner fuel deadline m r e e' later (still id pid deadline r waiting) h) in
            (q, rw (reaps) (rw (Option.bind, waiting) returns), p)
      ]

  await_old-Returns :
      (n : ℕ) (id : NodeId) (pid : Option ℕ) (m : Manager)
      → Going c n m
      → Returns (Going c n) (await_old (suc (5 * second)) id pid m)
  unfolding await_old tick
  await_old-Returns n id none m p = (m, refl, p)
  await_old-Returns n id (some pid) m (shape, (e, le)) =
      await_exit-Returns (suc (5 * second)) n id pid (instant m + 5 * second) (tick m)
        (shape, (e, omega (arith, le)))
        (omega (arith, passing m.moment, ap (λ f. f m.moment) e, ap (λ f. f (suc m.moment)) e))

  restart-Returns :
      (n : ℕ) (id : NodeId) (m : Manager)
      → Going c n m
      → Returns (Going c n) (restart (suc (5 * second)) id m)
  unfolding restart
  restart-Returns n id m p =
      Returns-map _ (λ r q. start_worker-Preserved (Going-Preserved c n) id r q)
        (await_old-Returns n id (pid_of id m) (Workers.stop_worker id m)
          (stop_worker-Preserved (Going-Preserved c n) id m p))

  launch-Going :
      (n : ℕ) (def : ServiceDef) (parent : NodeId) (r : Result SupervisorTree) (m : Manager)
      → add_worker m.tree def parent ≡ r
      → Going c n m
      → Going c n (launch def r m)
  launch-Going n def parent (ok t) m e (shape, p) =
      start_worker-Preserved (Going-Preserved c n) def.service.name (with_tree t m)
        (add_worker-IsWellFormed m.tree t def parent shape e, p)
  launch-Going n def parent (err x) m e p = p

  add_new-Going :
      (n : ℕ) (existing : List String) (defs : List ServiceDef) (m : Manager)
      → Going c n m
      → Going c n (add_new existing defs m)
  unfolding add_new
  add_new-Going n existing [] m p = p
  add_new-Going n existing (def ∷ defs) m p =
      elim (Bool-cases (Set.contains def.service.name existing)) [
        | inl old ↦ rw (add_new, old) (add_new-Going n existing defs m p)
        | inr new ↦
            rw (add_new, new)
              (add_new-Going n existing defs _ (
                launch-Going n def (parent_id def m.tree)
                  (add_worker m.tree def (parent_id def m.tree)) m refl p))
      ]

  stop_missing-Going :
      (n : ℕ) (loaded existing : List String) (m : Manager)
      → Going c n m
      → Going c n (stop_missing loaded existing m)
  unfolding stop_missing
  stop_missing-Going n loaded [] m p = p
  stop_missing-Going n loaded (name ∷ existing) m p = elim (Bool-cases (Set.contains name loaded)) [
    | inl kept ↦ rw (stop_missing, kept) (stop_missing-Going n loaded existing m p)
    | inr gone ↦
        rw (stop_missing, gone)
          (stop_missing-Going n loaded existing _
            (stop_worker-Preserved (Going-Preserved c n) name m p))
  ]

  reload_services-Going :
      (n : ℕ) (defs : Option (List ServiceDef)) (m : Manager)
      → Going c n m
      → Going c n (reload_services defs m)
  unfolding reload_services
  reload_services-Going n none m p = p
  reload_services-Going n (some defs) m p =
      let existing = all_workers m.tree in
      stop_missing-Going n (names defs) existing (add_new existing defs m)
        (add_new-Going n existing defs m p)

  -- The manager of an outcome.
  abbrev pub GoingAfter : ℕ → Outcome → Type 0
  GoingAfter n (running m) = Going c n m
  GoingAfter n (leaving kind m) = Going c n m

  carry_out-Returns :
      (load : ℕ → Option (List ServiceDef)) (action : ControlAction) (n : ℕ) (m : Manager)
      → Going c n m
      → Returns (GoingAfter n) (carry_out (suc (5 * second)) load action m)
  unfolding carry_out tick
  carry_out-Returns load (start_worker name) n m p =
      (_, refl, start_worker-Preserved (Going-Preserved c n) name m p)
  carry_out-Returns load (stop_worker name) n m p =
      (_, refl, stop_worker-Preserved (Going-Preserved c n) name m p)
  carry_out-Returns load (restart_worker name) n m p =
      Returns-map running (λ r q. q) (restart-Returns n name m p)
  carry_out-Returns load reload_configuration n m (shape, (e, le)) =
      (_, refl, reload_services-Going n (load m.moment) (tick m) (shape, (e, omega (arith, le))))
  carry_out-Returns load (shut_down kind) n m p = (_, refl, p)

  go_on-Returns :
      (n : ℕ) (next : Manager → Option Outcome)
      → ((r : Manager) → Going c n r → Returns (GoingAfter n) (next r))
      → (o : Outcome) → GoingAfter n o
      → Returns (GoingAfter n) (go_on next o)
  go_on-Returns n next h (running r) q = h r q
  go_on-Returns n next h (leaving kind r) q = (leaving kind r, refl, q)

  pub dispatch_control_actions-Returns :
      (load : ℕ → Option (List ServiceDef)) (actions : List ControlAction) (n : ℕ) (m : Manager)
      → Going c n m
      → Returns (GoingAfter n) (dispatch_control_actions (suc (5 * second)) load actions m)
  unfolding dispatch_control_actions
  dispatch_control_actions-Returns load [] n m p = (running m, refl, p)
  dispatch_control_actions-Returns load (action ∷ actions) n m p =
      Returns-bind _
        (go_on-Returns n (dispatch_control_actions (suc (5 * second)) load actions)
          (dispatch_control_actions-Returns load actions n))
        (carry_out-Returns load action n m p)
