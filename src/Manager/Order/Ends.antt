-- ===== src/Manager/Order/Ends.antt =====
-- Reaping during start-up ends, and keeps `Follows`.
use dynamod.Common.{
  ℕ, zero, suc, ◌≤◌, ◌≡◌, refl, sym, subst, true, String, List, [], ◌∷◌, Option, some, arith,
  Option-cases, Bool-cases, inl, inr, string_key,
}
use dynamod.Common.Lists.{length}
use dynamod.Common.Set
use dynamod.Dependency.Graph.{DependencyGraph}
use dynamod.Dependency.Graph.Shape.{IsWellFormed}
use dynamod.Supervisor.Lifecycle.{ExitInfo}
use dynamod.Supervisor.Tree.{unregister_pid}
use dynamod.Manager.World.{
  WaitStatus, exited, signaled, still_alive, no_children, interrupted, other, wait_status, waited,
}
use dynamod.Manager.Workers.{registered}
use dynamod.Manager.Exits.{unregistered, note_exit, with_code, with_signal, reap_and_handle_exits}
use dynamod.Manager.Preserved.{
  Returns, Returns-map, Returns-bind, handle_child_exit-Returns, noting,
}
use dynamod.Manager.Reaping.{AtMost, AtMost-Preserved, weaken, reap_and_handle_exits-Returns}
use dynamod.Manager.Startup.{
  StartUp, with_manager, finish_oneshot, other_exit, startup_exit, on_startup_status,
  reap_oneshots_within, reap_oneshots_during_startup,
}
use dynamod.Manager.Order.{Follows, with_manager-Follows}
use dynamod.Manager.Order.Turn.{finish_oneshot-Follows}

module _ (g : DependencyGraph) (shape : IsWellFormed g) where
  -- With at most `n` answers of `waitpid` to come.
  abbrev Going : ℕ → StartUp → Type 0
  Going n s = Follows g [] s × AtMost n s.manager

  -- The manager after the end of a oneshot.
  finish_oneshot-manager :
      (x : String) (pid : ℕ) (exit : ExitInfo) (s : StartUp) (r : StartUp)
      → finish_oneshot g x pid exit s ≡ some r
      → r.manager ≡ note_exit x exit (unregistered pid s.manager)
  unfolding finish_oneshot
  finish_oneshot-manager x pid exit s r e = ground (arith, e)

  finish_oneshot-Going :
      (n : ℕ) (x : String) (pid : ℕ) (exit : ExitInfo) (s : StartUp)
      → Set.contains x s.pending_oneshots ≡ true
      → (unregister_pid pid s.manager.tree).1 ≡ some x
      → Going n s
      → Returns (Going n) (finish_oneshot g x pid exit s)
  finish_oneshot-Going n x pid exit s waits known (v, few) =
      let (r, e, v') = finish_oneshot-Follows g shape x pid exit s waits v in
      let few' : AtMost n (note_exit x exit (unregistered pid s.manager)) =
        noting (AtMost-Preserved n) x pid exit s.manager known few in
      (r, e, (v', subst (AtMost n) (sym (finish_oneshot-manager x pid exit s r e)) few'))

  other_exit-Going :
      (n : ℕ) (x : String) (pid : ℕ) (exit : ExitInfo) (s : StartUp)
      → Going n s
      → Returns (Going n) (other_exit x pid exit s)
  unfolding other_exit
  other_exit-Going n x pid exit s (v, few) =
      Returns-map (with_manager s) (λ m fewer. (with_manager-Follows g [] s m v, fewer))
        (handle_child_exit-Returns (AtMost-Preserved n) reap_and_handle_exits
          (λ m le. weaken (λ r q. q.0) (reap_and_handle_exits-Returns (AtMost-Preserved n) m le))
          pid exit (registered x pid (unregistered pid s.manager)) few)

  startup_exit-Going :
      (n : ℕ) (pid : ℕ) (exit : ExitInfo) (s : StartUp)
      → Going n s
      → Returns (Going n) (startup_exit g pid exit s)
  unfolding startup_exit
  startup_exit-Going n pid exit s v = elim (Option-cases (unregister_pid pid s.manager.tree).1) [
    | inl unknown ↦
        rw (startup_exit, unknown)
          (_, refl, (with_manager-Follows g [] s (unregistered pid s.manager) v.0, v.1))
    | inr (x, known) ↦ elim (Bool-cases (Set.contains x s.pending_oneshots)) [
      | inl waits ↦
          rw (startup_exit, known) (rw waits (finish_oneshot-Going n x pid exit s waits known v))
      | inr elsewhere ↦ rw (startup_exit, known) (rw elsewhere (other_exit-Going n x pid exit s v))
    ]
  ]

  on_startup_status-Going :
      (n : ℕ) (reap : StartUp → Option StartUp)
      → ((s : StartUp) → Going n s → Returns (Going n) (reap s))
      → (w : WaitStatus) (s : StartUp) → Going n s
      → Returns (Going n) (on_startup_status reap g w s)
  unfolding on_startup_status
  on_startup_status-Going n reap turn (exited pid code) s v =
      Returns-bind reap turn (startup_exit-Going n pid (with_code code) s v)
  on_startup_status-Going n reap turn (signaled pid sig) s v =
      Returns-bind reap turn (startup_exit-Going n pid (with_signal sig) s v)
  on_startup_status-Going n reap turn still_alive s v = (s, refl, v)
  on_startup_status-Going n reap turn no_children s v = (s, refl, v)
  on_startup_status-Going n reap turn interrupted s v = turn s v
  on_startup_status-Going n reap turn other s v = (s, refl, v)

  turn_on :
      (reap : StartUp → Option StartUp) (s : StartUp) (w : WaitStatus) (n : ℕ)
      → wait_status s.manager ≡ w
      → Returns (Going n) (on_startup_status reap g w (with_manager s (waited s.manager)))
      → Returns
          (Going n)
          (on_startup_status reap g (wait_status s.manager) (with_manager s (waited s.manager)))
  turn_on reap s w n e r =
      subst
        (λ o. Returns (Going n) (on_startup_status reap g o (with_manager s (waited s.manager))))
        (sym e) r

  turns :
      (n : ℕ) (ws : List WaitStatus) (s : StartUp)
      → s.manager.waits ≡ ws
      → length ws ≤ n
      → Follows g [] s
      → Returns (Going (length ws)) (reap_oneshots_within (suc n) g s)
  unfolding reap_oneshots_within on_startup_status waited
  turns n [] s e le v =
      turn_on (reap_oneshots_within n g) s still_alive 0 (rw e refl)
        (_, refl, (with_manager-Follows g [] s (waited s.manager) v, rw e (omega arith)))
  turns zero (w ∷ ws) s e le v = absurd (omega arith)
  turns (suc n) (w ∷ ws) s e le v =
      let next : (s' : StartUp)
          → Going (length ws) s'
          → Returns (Going (length ws)) (reap_oneshots_within (suc n) g s') =
        λ s' (v', short).
          weaken (λ r (q, shorter). (q, omega arith))
            (turns n s'.manager.waits s' refl (omega arith) v') in
      let began : Going (length ws) (with_manager s (waited s.manager)) =
        (with_manager-Follows g [] s (waited s.manager) v, rw e (omega arith)) in
      weaken (λ r (q, shorter). (q, omega arith))
        (turn_on (reap_oneshots_within (suc n) g) s w (length ws) (rw e refl) (
          on_startup_status-Going (length ws) (reap_oneshots_within (suc n) g) next w
            (with_manager s (waited s.manager)) began))

  pub reap_oneshots_during_startup-Follows :
      (s : StartUp) → Follows g [] s → Returns (Follows g []) (reap_oneshots_during_startup g s)
  unfolding reap_oneshots_during_startup
  reap_oneshots_during_startup-Follows s v =
      weaken (λ r (q, few). q)
        (turns (length s.manager.waits) s.manager.waits s refl (omega arith) v)
