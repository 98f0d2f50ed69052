-- ===== src/Login/Daemon/Ending.antt =====
-- Ending and activating a session keeps the login daemon sound.
use dynamod.Common.{
  ℕ, ◌≡◌, ◌≢◌, ap, ◌∙◌, Bool, true, false, List, [], ◌∷◌, ◌++◌, Option, none, some, arith, ite, inl,
  inr, Option-cases, Bool-cases, string_discrete, string_key, nat_key, sym, subst,
}
use dynamod.Common.Map
use dynamod.Common.Map.{Map, lookup-insert}
use dynamod.Common.Set
use dynamod.Login.Data.{SessionId, SeatId, Session, LoginState}
use dynamod.Login.State
use dynamod.Login.State.{foreground}
use dynamod.Login.State.Consistent.{is_known, is_present, seat_of, foreground_uid}
use dynamod.Login.State.Removal.{remove_session-IsConsistent}
use dynamod.Login.State.Removal.Views.{
  seat_left, present_left, front_uid_left, known_left, rest_left,
}
use dynamod.Login.State.Switching.{activate_session-IsConsistent}
use dynamod.Login.State.Switching.Views.{
  uid_moved, seat_moved, present_moved, front_moved, users_moved, rest_moved,
}
use dynamod.Login.Daemon.{
  Daemon, sleeping, act, with_state, schedule_cleanup, finalize, finalize_session_removal, in_front,
  passed_on, pass_on, run_acl_handover, activate_with_acl_handover, other_than, uid_at,
}
use dynamod.Login.Daemon.Actions.{
  Action, release_scope, holder, wants_runtime_dir, holder-append, wants_runtime_dir-append,
}
use dynamod.Login.Daemon.Sound.{IsSound, with_pending}

module _ {Config : Type 0} (x : SessionId) (s : Session) (d : Daemon Config) (v : IsSound d)
    (there : Map.lookup x d.state.sessions ≡ some s) where
  abbrev st : LoginState Config ℕ
  st = State.remove_session x d.state

  abbrev passed : List Action
  passed = passed_on s.active s.seat s.uid (in_front st.seats st.sessions s.seat)

  away :
      (k : SeatId)
      → foreground (Map.lookup k d.state.seats) ≢ some x
      → foreground_uid (Map.lookup k st.seats) st.sessions
        ≡ foreground_uid (Map.lookup k d.state.seats) d.state.sessions
  away k h = elim (Option-cases (foreground (Map.lookup k d.state.seats))) [
    | inl e ↦ front_uid_left x s d.state v.consistent there k (ground (arith, e))
    | inr (id, e) ↦ front_uid_left x s d.state v.consistent there k (ground (arith, e, h))
  ]

  -- In the foreground of a seat, the session is active and on that seat.
  in_foreground :
      (k : SeatId)
      → foreground (Map.lookup k d.state.seats) ≡ some x
      → (s.active ≡ true) × (s.seat ≡ some k)
  in_foreground k h = ground (
    arith,
    h,
    there,
    v.consistent.foreground_active k x,
    v.consistent.on_seat k x,
    v.consistent.foreground_listed k x,
  )

  -- The seat the session was in the foreground of.
  module _ (j : SeatId) (on : s.seat ≡ some j) (front : s.active ≡ true) where
    listed_there : (k : SeatId) → k ≢ j → foreground (Map.lookup k d.state.seats) ≢ some x
    listed_there k ne h = ground (arith, ne, h, on, in_foreground k)

    shown : is_present (Map.lookup j d.state.seats) ≡ true
    shown = v.seated j x (ground (arith, there, on))

    its : foreground (Map.lookup j d.state.seats) ≡ some x
    its = ground (arith, there, on, front, shown, v.consistent.one_foreground j x)

    holder_there : foreground_uid (Map.lookup j d.state.seats) d.state.sessions ≡ some s.uid
    holder_there = ground (arith, there, its)

    holder_active :
        (k : SeatId)
        → holder k
            (pass_on j s.uid (foreground_uid (Map.lookup j st.seats) st.sessions))
            (foreground_uid (Map.lookup k d.state.seats) d.state.sessions)
          ≡ foreground_uid (Map.lookup k st.seats) st.sessions
    unfolding holder pass_on
    holder_active k = elim (string_discrete j k) [
      | yes same ↦
          subst
            (λ k.
              holder k (pass_on j s.uid (foreground_uid (Map.lookup j st.seats) st.sessions))
                (foreground_uid (Map.lookup k d.state.seats) d.state.sessions)
              ≡ foreground_uid (Map.lookup k st.seats) st.sessions)
            same
            (elim (Option-cases (foreground_uid (Map.lookup j st.seats) st.sessions)) [
              | inl e ↦ ground (arith, e)
              | inr (new, e) ↦ ground (arith, e, holder_there)
            ])
      | no other ↦ elim (Option-cases (foreground_uid (Map.lookup j st.seats) st.sessions)) [
        | inl e ↦ ground (arith, e, other, away k, listed_there k)
        | inr (new, e) ↦ ground (arith, e, other, away k, listed_there k)
      ]
    ]

  holder-passed :
      (k : SeatId)
      → holder k passed (foreground_uid (Map.lookup k d.state.seats) d.state.sessions)
        ≡ foreground_uid (Map.lookup k st.seats) st.sessions
  unfolding holder pass_on
  holder-passed k = elim (Option-cases s.seat) [
    | inl out ↦ ground (arith, out, away k, in_foreground k)
    | inr (j, on) ↦ elim (Bool-cases s.active) [
      | inr idle ↦ ground (arith, on, idle, away k, in_foreground k)
      | inl front ↦ rw (on, front) (holder_active j on front k)
    ]
  ]

  runtime_passed : (u : ℕ) (b : Bool) → wants_runtime_dir u passed b ≡ b
  unfolding wants_runtime_dir pass_on
  runtime_passed u b = elim (Option-cases s.seat) [
    | inl out ↦ ground (arith, out)
    | inr (j, on) ↦ ground (arith, on)
  ]

  abbrev scope : List Action
  scope = release_scope s.uid x ∷ []

  devices_after :
      (k : SeatId)
      → holder k ((d.actions ++ scope) ++ passed) none
        ≡ foreground_uid (Map.lookup k st.seats) st.sessions
  unfolding holder
  devices_after k =
      holder-append k (d.actions ++ scope) passed none
      ∙ (ap (holder k passed) (holder-append k d.actions scope none ∙ v.devices k)
          ∙ holder-passed k)

  runtime_after :
      (u : ℕ)
      → is_known (Map.lookup u st.users) ≡ true
      → wants_runtime_dir u ((d.actions ++ scope) ++ passed) false ≡ true
  unfolding wants_runtime_dir
  runtime_after u known =
      wants_runtime_dir-append u (d.actions ++ scope) passed false
      ∙ (runtime_passed u (wants_runtime_dir u (d.actions ++ scope) false)
          ∙ (wants_runtime_dir-append u d.actions scope false
              ∙ v.runtime u (known_left x s d.state v.consistent there u known)))

  seated_after :
      (k : SeatId) (id : SessionId)
      → seat_of (Map.lookup id st.sessions) ≡ some (some k)
      → is_present (Map.lookup k st.seats) ≡ true
  seated_after k id h = ground (
    arith,
    h,
    v.seated k id,
    seat_left x s d.state v.consistent there id,
    present_left x s d.state v.consistent there k,
  )

  known_before : is_known (Map.lookup s.uid d.state.users) ≡ true
  unfolding Set.contains
  known_before = ground (arith, there, v.consistent.listed_of_user s.uid x)

  finalize-IsSound : IsSound (finalize x s d)
  unfolding finalize schedule_cleanup
  finalize-IsSound = elim (Option-cases (Map.lookup s.uid st.users)) [
    | inr (user, e) ↦
        rw (finalize, e)
          (record {
            consistent = remove_session-IsConsistent x d.state v.consistent;
            seated = seated_after;
            devices = devices_after;
            runtime = runtime_after;
            tasked = λ h u sleeps. ground (
              arith,
              sleeps,
              v.tasked h u,
              known_left x s d.state v.consistent there u,
              rest_left x s d.state v.consistent there,
            );
            unused = v.unused;
          })
    | inl e ↦
        rw (finalize, e)
          (record {
            consistent = with_pending st _ (remove_session-IsConsistent x d.state v.consistent);
            seated = seated_after;
            devices = devices_after;
            runtime = runtime_after;
            tasked = λ h u sleeps. ground (
              arith,
              sleeps,
              e,
              known_before,
              v.tasked h u,
              lookup-insert d.next_handle h (record { uid = s.uid; stage = sleeping }) d.tasks,
              lookup-insert s.uid u d.next_handle st.pending_user_cleanups,
              known_left x s d.state v.consistent there u,
              rest_left x s d.state v.consistent there,
            );
            unused = λ h le. ground (
              arith,
              le,
              v.unused h,
              lookup-insert d.next_handle h (record { uid = s.uid; stage = sleeping }) d.tasks,
            );
          })
  ]

module _ {Config : Type 0} where
  pub finalize_session_removal-IsSound :
      (x : SessionId) (d : Daemon Config) → IsSound d → IsSound (finalize_session_removal x d)
  unfolding finalize_session_removal
  finalize_session_removal-IsSound x d v = elim (Option-cases (Map.lookup x d.state.sessions)) [
    | inl e ↦ rw (finalize_session_removal, e) v
    | inr (s, e) ↦ rw (finalize_session_removal, e) (finalize-IsSound x s d v e)
  ]

module _ {Config : Type 0} (x : SessionId) (s : Session) (sid : SeatId) (d : Daemon Config)
    (v : IsSound d) (there : Map.lookup x d.state.sessions ≡ some s) (on : s.seat ≡ some sid) where
  abbrev moved : LoginState Config ℕ
  moved = State.activate_session x d.state

  abbrev before : Option ℕ
  before = uid_at d.state.sessions (other_than x (foreground (Map.lookup sid d.state.seats)))

  abbrev handed : List Action
  handed = run_acl_handover (some sid) before (some s.uid)

  present : is_present (Map.lookup sid d.state.seats) ≡ true
  present = v.seated sid x (ground (arith, there, on))

  -- The session ends up as the holder, whoever was before.
  holder-handed :
      (k : SeatId) (o : Option ℕ) → holder k handed o ≡ ite (string_discrete sid k) (some s.uid) o
  unfolding holder run_acl_handover
  holder-handed k o = elim (Option-cases before) [
    | inl e ↦ ground (arith, e)
    | inr (old, e) ↦ ground (arith, e)
  ]

  runtime_handed : (u : ℕ) (b : Bool) → wants_runtime_dir u handed b ≡ b
  unfolding wants_runtime_dir run_acl_handover
  runtime_handed u b = elim (Option-cases before) [
    | inl e ↦ ground (arith, e)
    | inr (old, e) ↦ ground (arith, e)
  ]

  uid_in_front :
      (k : SeatId)
      → foreground_uid (Map.lookup k moved.seats) moved.sessions
        ≡ ite
            (string_discrete sid k)
            (some s.uid)
            (foreground_uid (Map.lookup k d.state.seats) d.state.sessions)
  uid_in_front k = elim (Option-cases (foreground (Map.lookup k d.state.seats))) [
    | inl e ↦ ground (
      arith,
      e,
      there,
      front_moved x s sid d.state v.consistent there on k present,
      uid_moved x s sid d.state v.consistent there on x,
    )
    | inr (id, e) ↦ ground (
      arith,
      e,
      there,
      front_moved x s sid d.state v.consistent there on k present,
      uid_moved x s sid d.state v.consistent there on x,
      uid_moved x s sid d.state v.consistent there on id,
    )
  ]

  activated-IsSound : IsSound (act handed (with_state moved d))
  activated-IsSound = record {
    consistent = activate_session-IsConsistent x d.state v.consistent;
    seated = λ k id h. ground (
      arith,
      h,
      v.seated k id,
      seat_moved x s sid d.state v.consistent there on id,
      present_moved x s sid d.state v.consistent there on k,
    );
    devices = λ k.
        holder-append k d.actions handed none
        ∙ (holder-handed k (holder k d.actions none)
            ∙ (ap (λ o. ite (string_discrete sid k) (some s.uid) o) (v.devices k)
                ∙ sym (uid_in_front k)));
    runtime = λ u known.
        wants_runtime_dir-append u d.actions handed false
        ∙ (runtime_handed u _
            ∙ v.runtime u
                (ground (arith, known, users_moved x s sid d.state v.consistent there on)));
    tasked = λ h u sleeps. ground (
      arith,
      sleeps,
      v.tasked h u,
      users_moved x s sid d.state v.consistent there on,
      rest_moved x s sid d.state v.consistent there on,
    );
    unused = v.unused;
  }

module _ {Config : Type 0} where
  nothing-IsSound : (d : Daemon Config) → IsSound d → IsSound (act [] d)
  unfolding holder wants_runtime_dir
  nothing-IsSound d v = record {
    consistent = v.consistent;
    seated = v.seated;
    devices = λ k. holder-append k d.actions [] none ∙ v.devices k;
    runtime = λ u known. wants_runtime_dir-append u d.actions [] false ∙ v.runtime u known;
    tasked = v.tasked;
    unused = v.unused;
  }

  seatless-unmoved :
      (x : SessionId) (s : Session) (d : Daemon Config)
      → Map.lookup x d.state.sessions ≡ some s
      → s.seat ≡ none
      → State.activate_session x d.state ≡ d.state
  unfolding State.activate_session
  seatless-unmoved x s d there out = ground (arith, there, out)

  pub activate_with_acl_handover-IsSound :
      (x : SessionId) (s : Session) (d : Daemon Config)
      → Map.lookup x d.state.sessions ≡ some s
      → IsSound d
      → IsSound (activate_with_acl_handover x s d)
  unfolding activate_with_acl_handover run_acl_handover
  activate_with_acl_handover-IsSound x s d there v = elim (Option-cases s.seat) [
    | inr (sid, on) ↦ rw (on) (activated-IsSound x s sid d v there on)
    | inl out ↦ rw (out, seatless-unmoved x s d there out) (nothing-IsSound d v)
  ]
