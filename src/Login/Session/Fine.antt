-- ===== src/Login/Session/Fine.antt =====
-- What every operation on the login state keeps: it is consistent, and no session has devices open
-- without a controller.
use dynamod.Common.{
  ℕ, ◌≡◌, sym, subst, ◌∙◌, false, none, some, arith, inl, inr, Option-cases, string_key, nat_key,
}
use dynamod.Common.Map
use dynamod.Common.Map.{Map, lookup-insert}
use dynamod.Login.Data.{SessionId, Session, LoginState, SessionRequest}
use dynamod.Login.State
use dynamod.Login.State.Consistent.{
  IsConsistent, IsControlled, is_loose, seat_of, uid_of, is_active, leader_of,
}
use dynamod.Login.State.{session_is_active}
use dynamod.Login.State.Creation.{create_session-IsConsistent}
use dynamod.Login.State.Creation.Views.{loose_created}
use dynamod.Login.State.Removal.{remove_session-IsConsistent}
use dynamod.Login.State.Removal.Views.{loose_left}
use dynamod.Login.State.Switching.{activate_session-IsConsistent}
use dynamod.Login.State.Switching.Views.{loose_moved}
use dynamod.Login.Daemon.Sound.{with_pending}
use dynamod.Login.Session.Control.{SamePlace}

module _ {Config : Type 0} where
  pub record IsFine (st : LoginState Config ℕ) : Type 0 where
    pub consistent : IsConsistent st
    pub controlled : IsControlled st

  pub pending-IsFine :
      (st : LoginState Config ℕ) (p : Map ℕ ℕ)
      → IsFine st
      → IsFine (record st { pending_user_cleanups = p })
  pending-IsFine st p v = record {
    consistent = with_pending st p v.consistent;
    controlled = v.controlled;
  }

  pub created-IsFine :
      (id : SessionId) (now_usec now : ℕ) (r : SessionRequest) (st : LoginState Config ℕ)
      → Map.lookup id st.sessions ≡ none
      → IsFine st
      → IsFine (State.create_session id now_usec now r st)
  created-IsFine id now_usec now r st fresh v = record {
    consistent = create_session-IsConsistent id now_usec now r st v.consistent fresh;
    controlled = λ i.
        ground (arith, loose_created id now_usec now r st v.consistent fresh i, v.controlled i);
  }

  nothing_removed :
      (id : SessionId) (st : LoginState Config ℕ)
      → Map.lookup id st.sessions ≡ none
      → State.remove_session id st ≡ st
  unfolding State.remove_session
  nothing_removed id st e = ground (arith, e)

  nothing_activated :
      (id : SessionId) (st : LoginState Config ℕ)
      → Map.lookup id st.sessions ≡ none
      → State.activate_session id st ≡ st
  unfolding State.activate_session
  nothing_activated id st e = ground (arith, e)

  seatless_activated :
      (id : SessionId) (s : Session) (st : LoginState Config ℕ)
      → Map.lookup id st.sessions ≡ some s
      → s.seat ≡ none
      → State.activate_session id st ≡ st
  unfolding State.activate_session
  seatless_activated id s st e out = ground (arith, e, out)

  pub removed-IsFine :
      (id : SessionId) (st : LoginState Config ℕ) → IsFine st → IsFine (State.remove_session id st)
  removed-IsFine id st v = record {
    consistent = remove_session-IsConsistent id st v.consistent;
    controlled = elim (Option-cases (Map.lookup id st.sessions)) [
      | inl e ↦ subst IsControlled (sym (nothing_removed id st e)) v.controlled
      | inr (s, e) ↦ λ i. ground (arith, loose_left id s st v.consistent e i, v.controlled i)
    ];
  }

  pub activated-IsFine :
      (id : SessionId) (st : LoginState Config ℕ)
      → IsFine st
      → IsFine (State.activate_session id st)
  activated-IsFine id st v = record {
    consistent = activate_session-IsConsistent id st v.consistent;
    controlled = elim (Option-cases (Map.lookup id st.sessions)) [
      | inl e ↦ subst IsControlled (sym (nothing_activated id st e)) v.controlled
      | inr (s, e) ↦ elim (Option-cases s.seat) [
        | inl out ↦ subst IsControlled (sym (seatless_activated id s st e out)) v.controlled
        | inr (k, on) ↦
            λ i. ground (arith, loose_moved id s k st v.consistent e on i, v.controlled i)
      ]
    ];
  }

  -- A session that stays where it is.
  module _ (id : SessionId) (s t : Session) (st : LoginState Config ℕ)
      (there : Map.lookup id st.sessions ≡ some s) (same : SamePlace s t) where
    abbrev replaced : LoginState Config ℕ
    replaced = record st { sessions = Map.insert id t st.sessions }

    seat_kept :
        (i : SessionId)
        → seat_of (Map.lookup i replaced.sessions) ≡ seat_of (Map.lookup i st.sessions)
    seat_kept i = ground (arith, there, same.same_seat, lookup-insert id i t st.sessions)

    uid_kept :
        (i : SessionId)
        → uid_of (Map.lookup i replaced.sessions) ≡ uid_of (Map.lookup i st.sessions)
    uid_kept i = ground (arith, there, same.same_uid, lookup-insert id i t st.sessions)

    active_kept :
        (i : SessionId)
        → is_active (Map.lookup i replaced.sessions) ≡ is_active (Map.lookup i st.sessions)
    active_kept i = ground (arith, there, same.same_active, lookup-insert id i t st.sessions)

    state_kept :
        (i : SessionId)
        → session_is_active (Map.lookup i replaced.sessions)
          ≡ session_is_active (Map.lookup i st.sessions)
    state_kept i = ground (arith, there, same.same_state, lookup-insert id i t st.sessions)

    leader_kept :
        (i : SessionId)
        → leader_of (Map.lookup i replaced.sessions) ≡ leader_of (Map.lookup i st.sessions)
    leader_kept i = ground (arith, there, same.same_leader, lookup-insert id i t st.sessions)

    pub replaced-IsFine : is_loose (some t) ≡ false → IsFine st → IsFine replaced
    replaced-IsFine tight v = record {
      consistent = record {
        on_seat = λ k i h. seat_kept i ∙ v.consistent.on_seat k i h;
        listed_on_seat = λ k i h e. v.consistent.listed_on_seat k i h (sym (seat_kept i) ∙ e);
        foreground_listed = v.consistent.foreground_listed;
        foreground_active = λ k i h. active_kept i ∙ v.consistent.foreground_active k i h;
        one_foreground = λ k i h e a.
            v.consistent.one_foreground k i h (sym (seat_kept i) ∙ e) (sym (active_kept i) ∙ a);
        state_matches = λ i. state_kept i ∙ (v.consistent.state_matches i ∙ sym (active_kept i));
        of_user = λ u i h. uid_kept i ∙ v.consistent.of_user u i h;
        listed_of_user = λ u i h. v.consistent.listed_of_user u i (sym (uid_kept i) ∙ h);
        led = λ p i h. leader_kept i ∙ v.consistent.led p i h;
      };
      controlled = λ i. ground (arith, tight, v.controlled i, lookup-insert id i t st.sessions);
    }
