-- ===== src/Login/Daemon/Sound.antt =====
-- What ties the devices, the runtime directories and the clean-up tasks to the login state.
use dynamod.Common.{
  ℕ, ◌≤◌, ◌≡◌, ◌≢◌, ap, ◌∙◌, String, Bool, true, false, List, ◌∷◌, Option, none, some, arith, ite,
  inl, inr, Option-cases, ◌&&◌, if◌then◌else◌, string_discrete, string_key, nat_key,
}
use dynamod.Common.Map
use dynamod.Common.Map.{Map, lookup-insert, lookup-remove}
use dynamod.Login.Data.{SessionId, SeatId, LoginState, SessionRequest}
use dynamod.Login.State
use dynamod.Login.State.{foreground}
use dynamod.Login.State.Consistent.{
  IsConsistent, is_known, is_active, is_present, seat_of, uid_of, foreground_uid,
}
use dynamod.Login.State.Creation.{create_session-IsConsistent}
use dynamod.Login.State.Creation.Views.{
  uid_created, seat_created, active_created, front_created, present_created, known_created,
  rest_created,
}
use dynamod.Login.Daemon.{
  Daemon, Outside, CreateCall, Stage, sleeping, forgetting, releasing, Task, act, with_state,
  request_of, acl_of_new,
}
use dynamod.Login.Daemon.Actions.{
  Action, ensure_runtime_dir, place_leader, holder, wants_runtime_dir, holder-append,
  wants_runtime_dir-append,
}

abbrev pub user_of : Option Task → Option ℕ
user_of none = none
user_of (some t) = some t.uid

abbrev pub is_release : Stage → Bool
is_release sleeping = false
is_release forgetting = false
is_release (releasing aborted) = true

abbrev pub is_releasing : Option Task → Bool
is_releasing none = false
is_releasing (some t) = is_release t.stage

module _ {Config : Type 0} where
  -- The login state is consistent, every session's seat exists, the last request for the devices of
  -- each seat hands them over to the user of the session in its foreground, for every user with a
  -- session a runtime directory was asked for and its removal was not since, and there is no clean-up
  -- task for a user with a session.
  pub record IsSound (d : Daemon Config) : Type 0 where
    pub consistent : IsConsistent d.state
    pub seated :
        (k : SeatId) (id : SessionId)
        → seat_of (Map.lookup id d.state.sessions) ≡ some (some k)
        → is_present (Map.lookup k d.state.seats) ≡ true
    pub devices :
        (k : SeatId)
        → holder k d.actions none ≡ foreground_uid (Map.lookup k d.state.seats) d.state.sessions
    pub runtime :
        (u : ℕ)
        → is_known (Map.lookup u d.state.users) ≡ true
        → wants_runtime_dir u d.actions false ≡ true
    pub tasked :
        (h u : ℕ)
        → user_of (Map.lookup h d.tasks) ≡ some u
        → (is_known (Map.lookup u d.state.users) ≡ false)
          × (Map.lookup u d.state.pending_user_cleanups ≡ some h)
    pub unused : (h : ℕ) → d.next_handle ≤ h → Map.lookup h d.tasks ≡ none

  pub with_pending :
      (st : LoginState Config ℕ) (pending : Map ℕ ℕ)
      → IsConsistent st
      → IsConsistent (record st { pending_user_cleanups = pending })
  with_pending st pending v = record {
    on_seat = v.on_seat;
    listed_on_seat = v.listed_on_seat;
    foreground_listed = v.foreground_listed;
    foreground_active = v.foreground_active;
    one_foreground = v.one_foreground;
    state_matches = v.state_matches;
    of_user = v.of_user;
    listed_of_user = v.listed_of_user;
    led = v.led;
  }

  -- A new session, with nothing of its user being cleaned up.
  module _ (o : Outside Config) (c : CreateCall) (seat : Option SeatId) (name : String) (gid : ℕ)
      (d : Daemon Config) (v : IsSound d) (fresh : Map.lookup o.id d.state.sessions ≡ none)
      (free : (k : SeatId) → seat ≡ some k → is_present (Map.lookup k d.state.seats) ≡ true)
      (idle : (h : ℕ) → user_of (Map.lookup h d.tasks) ≢ some c.uid) where
    abbrev asked : SessionRequest
    asked = request_of c name seat

    abbrev st : LoginState Config ℕ
    st = State.create_session o.id o.now_usec o.now asked d.state

    abbrev done : List Action
    done =
        ensure_runtime_dir c.uid gid (o.runtime_directory_size st.config)
        ∷ place_leader c.uid o.id c.pid
        ∷ acl_of_new (is_active (Map.lookup o.id st.sessions)) seat c.uid

    active : is_active (Map.lookup o.id st.sessions) ≡ State.is_first_on_seat seat d.state
    active = active_created o.id o.now_usec o.now asked d.state v.consistent fresh

    uid :
        (id : SessionId)
        → uid_of (Map.lookup id st.sessions)
          ≡ ite (string_discrete o.id id) (some c.uid) (uid_of (Map.lookup id d.state.sessions))
    uid = uid_created o.id o.now_usec o.now asked d.state v.consistent fresh

    front :
        (k : SeatId)
        → foreground (Map.lookup k st.seats) ≡ (
            if State.is_session k seat
              && (is_present (Map.lookup k d.state.seats) && State.is_first_on_seat seat d.state)
            then some o.id
            else foreground (Map.lookup k d.state.seats))
    front = front_created o.id o.now_usec o.now asked d.state v.consistent fresh

    runtime_ready :
        (u : ℕ)
        → is_known (Map.lookup u st.users) ≡ true
        → wants_runtime_dir u done (wants_runtime_dir u d.actions false) ≡ true
    unfolding wants_runtime_dir
    runtime_ready u known = elim (Option-cases seat) [
      | inl out ↦ ground (
        arith,
        out,
        known,
        v.runtime u,
        known_created o.id o.now_usec o.now asked d.state v.consistent fresh u,
      )
      | inr (j, on) ↦ ground (
        arith,
        on,
        known,
        v.runtime u,
        known_created o.id o.now_usec o.now asked d.state v.consistent fresh u,
      )
    ]

    -- A session in the foreground is not the new one.
    not_in_front : (k : SeatId) → foreground (Map.lookup k d.state.seats) ≢ some o.id
    not_in_front k h = ground (arith, fresh, h, v.consistent.foreground_active k o.id)

    holder-done :
        (k : SeatId)
        → holder k done (foreground_uid (Map.lookup k d.state.seats) d.state.sessions)
          ≡ foreground_uid (Map.lookup k st.seats) st.sessions
    unfolding holder
    holder-done k = elim (Option-cases (foreground (Map.lookup k d.state.seats))) [
      | inl e ↦ elim (Option-cases seat) [
        | inl out ↦ ground (arith, e, out, front k)
        | inr (j, on) ↦ ground (arith, e, on, front k, free k, active, uid o.id)
      ]
      | inr (id, e) ↦ elim (Option-cases seat) [
        | inl out ↦ ground (arith, e, out, front k, uid id, not_in_front k)
        | inr (j, on) ↦
            ground (arith, e, on, front k, free k, active, uid o.id, uid id, not_in_front k)
      ]
    ]

    pub begun-IsSound : IsSound (act done (with_state st d))
    begun-IsSound = record {
      consistent =
          create_session-IsConsistent o.id o.now_usec o.now asked d.state v.consistent fresh;
      seated = λ k id there. ground (
        arith,
        there,
        v.seated k id,
        free k,
        present_created o.id o.now_usec o.now asked d.state v.consistent fresh k,
        seat_created o.id o.now_usec o.now asked d.state v.consistent fresh id,
      );
      devices = λ k.
          holder-append k d.actions done none ∙ (ap (holder k done) (v.devices k) ∙ holder-done k);
      runtime = λ u known. wants_runtime_dir-append u d.actions done false ∙ runtime_ready u known;
      tasked = λ h u there. ground (
        arith,
        there,
        v.tasked h u,
        idle h,
        known_created o.id o.now_usec o.now asked d.state v.consistent fresh u,
        rest_created o.id o.now_usec o.now asked d.state v.consistent fresh,
      );
      unused = λ h le. v.unused h le;
    }
