-- ===== src/Login/Power/Keys/Handshake.antt =====
-- What a key sets off, exactly.
use dynamod.Common.{
  ℕ, zero, suc, ◌+◌, ◌-◌, ◌<◌, ◌≤◌, ◌≡◌, refl, sym, ap, ◌∙◌, ◌⊎◌, leb, String, Bool, true, false,
  List, [], ◌∷◌, ◌++◌, Option, none, some, arith, inl, inr, Bool-cases, if◌then◌else◌,
}
use mathlib.Core.List.{append-nil, append_assoc}
use dynamod.Protocol.Message.{ShutdownKind}
use dynamod.Protocol.Message
use dynamod.Login.Power
use dynamod.Login.Power.{
  SleepKind, PowerCall, prepare_for_sleep, prepare_for_shutdown, write_state, request_shutdown,
  sysfs_state, Outside, Power, without, any_holds, ask, later, collected, now, wait_within,
  wait_for_delay_inhibitors, execute_sleep, execute_shutdown, has_block_inhibitor,
}
use dynamod.Login.Power.Keys.{
  HandleAction, ignore, poweroff, reboot, halt, suspend, hibernate, hybrid_sleep, lock, shut_down,
  fall_asleep, inhibit_what, run_action, run_on, unless_blocked, perform,
}

abbrev pub IsPassing : Outside → Type 0
IsPassing o = (n : ℕ) → o.clock n < o.clock (suc n)

abbrev pub sleep_handshake : SleepKind → List PowerCall
sleep_handshake kind =
    prepare_for_sleep true ∷ write_state (sysfs_state kind) ∷ prepare_for_sleep false ∷ []

abbrev pub shutdown_handshake : ShutdownKind → List PowerCall
shutdown_handshake kind = prepare_for_shutdown true ∷ request_shutdown kind ∷ []

-- The calls of an action that is carried out.
abbrev pub handshake : HandleAction → List PowerCall
handshake ignore = []
handshake lock = []
handshake poweroff = shutdown_handshake Message.poweroff
handshake reboot = shutdown_handshake Message.reboot
handshake halt = shutdown_handshake Message.halt
handshake suspend = sleep_handshake Power.suspend
handshake hibernate = sleep_handshake Power.hibernate
handshake hybrid_sleep = sleep_handshake Power.hybrid_sleep

-- Some inhibitor that is not released blocks the action.
abbrev pub is_blocked_by : Outside → Option String → Power → Bool
is_blocked_by o none p = false
is_blocked_by o (some what) p =
    any_holds "block" what (without (o.is_released p.moment) p.inhibitors)

abbrev pub is_blocked : Outside → HandleAction → Power → Bool
is_blocked o action p = is_blocked_by o (inhibit_what action) p

past : (a b : ℕ) → leb a b ≡ true → a ≤ b
past a b h = ground (arith, h)

ahead : (a b : ℕ) → leb a b ≡ false → b < a
ahead a b h = ground (arith, h)

module _ (o : Outside) (passing : IsPassing o) where
  wait_within-ends :
      (fuel : ℕ) (what : String) (deadline : ℕ) (p : Power)
      → deadline - now o p < fuel
      → (q : Power) × (wait_within o fuel what deadline p ≡ some q)
        × (q.calls ≡ p.calls)
        × ((any_holds "delay" what q.inhibitors ≡ false) ⊎ (deadline ≤ now o q))
  unfolding wait_within
  wait_within-ends zero what deadline p h = absurd (omega (arith, h))
  wait_within-ends (suc fuel) what deadline p h =
      let q = collected o p in
      let n = p.moment in
      elim (Bool-cases (any_holds "delay" what q.inhibitors)) [
        | inr free ↦ (q, rw (wait_within, free) refl, refl, inl free)
        | inl held ↦ elim (Bool-cases (leb deadline (now o q))) [
          | inl late ↦ (
            later q,
            rw (wait_within, held, late) refl,
            refl,
            inr (omega (arith, passing (suc n), past deadline (now o q) late)),
          )
          | inr early ↦
              let (r, returns, same, why) = wait_within-ends fuel what deadline (later (later q)) (
                omega (
                  arith,
                  h,
                  passing n,
                  passing (suc n),
                  passing (suc (suc n)),
                  ahead deadline (now o q) early,
                )) in
              (r, rw (wait_within, held, early) returns, same, why)
        ]
      ]

  wait-ends :
      (what : String) (max : ℕ) (p : Power)
      → (q : Power) × (wait_for_delay_inhibitors o what max p ≡ some q)
        × (q.calls ≡ p.calls)
        × ((any_holds "delay" what q.inhibitors ≡ false) ⊎ (now o p + max ≤ now o q))
  unfolding wait_for_delay_inhibitors
  wait-ends what max p =
      wait_within-ends (suc max) what (now o p + max) (later p) (omega (arith, passing p.moment))

  pushed_twice :
      (xs : List PowerCall) (a b : PowerCall) → (xs ++ a ∷ []) ++ b ∷ [] ≡ xs ++ a ∷ b ∷ []
  pushed_twice xs a b = append_assoc xs (a ∷ []) (b ∷ [])

  shut_down-calls :
      (max : ℕ) (kind : ShutdownKind) (p : Power)
      → (q : Power) × (shut_down o max kind p ≡ some q)
        × (q.calls ≡ p.calls ++ shutdown_handshake kind)
  unfolding execute_shutdown
  shut_down-calls max kind p =
      let (q, waits, same, why) = wait-ends "shutdown" max (ask (prepare_for_shutdown true) p) in
      (
        ask (request_shutdown kind) q,
        rw (waits) refl,
        ap (λ xs. xs ++ request_shutdown kind ∷ []) same
            ∙ pushed_twice p.calls (prepare_for_shutdown true) (request_shutdown kind),
      )

  fall_asleep-calls :
      (max : ℕ) (kind : SleepKind) (p : Power)
      → (q : Power) × (fall_asleep o max kind p ≡ some q)
        × (q.calls ≡ p.calls ++ sleep_handshake kind)
  unfolding execute_sleep
  fall_asleep-calls max kind p =
      let (q, waits, same, why) = wait-ends "sleep" max (ask (prepare_for_sleep true) p) in
      let state = write_state (sysfs_state kind) in
      (
        ask (prepare_for_sleep false) (ask state q),
        rw (waits) refl,
        ap (λ xs. (xs ++ state ∷ []) ++ prepare_for_sleep false ∷ []) same
            ∙ (pushed_twice (p.calls ++ prepare_for_sleep true ∷ []) state (prepare_for_sleep false)
                ∙ append_assoc p.calls (prepare_for_sleep true ∷ [])
                    (state ∷ prepare_for_sleep false ∷ [])),
      )

  perform-calls :
      (max : ℕ) (action : HandleAction) (p : Power)
      → (q : Power) × (perform o max action p ≡ some q) × (q.calls ≡ p.calls ++ handshake action)
  perform-calls max ignore p = (p, refl, sym (append-nil p.calls))
  perform-calls max lock p = (p, refl, sym (append-nil p.calls))
  perform-calls max suspend p = fall_asleep-calls max Power.suspend p
  perform-calls max hibernate p = fall_asleep-calls max Power.hibernate p
  perform-calls max hybrid_sleep p = fall_asleep-calls max Power.hybrid_sleep p
  perform-calls max poweroff p = shut_down-calls max Message.poweroff p
  perform-calls max reboot p = shut_down-calls max Message.reboot p
  perform-calls max halt p = shut_down-calls max Message.halt p

  unless_blocked-calls :
      (max : ℕ) (action : HandleAction) (p : Power) (blocked : Bool)
      → (q : Power) × (unless_blocked o max action (p, blocked) ≡ some q)
        × (q.calls ≡ p.calls ++ (if blocked then [] else handshake action))
  unless_blocked-calls max action p true = (p, refl, sym (append-nil p.calls))
  unless_blocked-calls max action p false = perform-calls max action p

  run_on-calls :
      (max : ℕ) (action : HandleAction) (what : Option String) (p : Power)
      → (q : Power) × (run_on o max action what p ≡ some q)
        × (q.calls ≡ p.calls ++ (if is_blocked_by o what p then [] else handshake action))
  unfolding has_block_inhibitor
  run_on-calls max action none p = perform-calls max action p
  run_on-calls max action (some what) p =
      let (q, blocked) = has_block_inhibitor o what p in unless_blocked-calls max action q blocked

-- If time passes from one moment to the next, then the action for a key or the lid comes to an end,
-- whatever inhibitors there are. It asks for nothing if an inhibitor that is not released blocks it, and
-- otherwise for exactly its handshake: for sleep, the announcement, the kernel's
-- sleep and the announcement that it is over; for a shutdown, the announcement and the request.
pub run_action-calls :
    (o : Outside) (max : ℕ) (action : HandleAction) (p : Power)
    → IsPassing o
    → (q : Power) × (run_action o max action p ≡ some q)
      × (q.calls ≡ p.calls ++ (if is_blocked o action p then [] else handshake action))
unfolding run_action
run_action-calls o max action p passing = run_on-calls o passing max action (inhibit_what action) p

-- If time passes from one moment to the next, then the wait for delay inhibitors ends and asks for
-- nothing; at its end no delay inhibitor for the action is left, or the time given has passed.
pub wait_for_delay_inhibitors-ends :
    (o : Outside) (what : String) (max : ℕ) (p : Power)
    → IsPassing o
    → (q : Power) × (wait_for_delay_inhibitors o what max p ≡ some q)
      × (q.calls ≡ p.calls)
      × ((any_holds "delay" what q.inhibitors ≡ false) ⊎ (now o p + max ≤ now o q))
wait_for_delay_inhibitors-ends o what max p passing = wait-ends o passing what max p
