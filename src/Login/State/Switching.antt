-- ===== src/Login/State/Switching.antt =====
-- `activate_session` keeps the login state consistent.
pub mod Views
use dynamod.Common.{
  ◌≡◌, refl, Option, none, some, arith, ite, subst, Option-cases, if◌then◌else◌, string_discrete,
  string_key, nat_key, inl, inr,
}
use mathlib.Core.Option
use dynamod.Common.Map
use dynamod.Common.Map.{Map, lookup-adjust}
use dynamod.Login.Data.{SessionId, SeatId, Session, Seat, LoginState}
use dynamod.Login.State.{
  activate_session, activate_on, activate, deactivate, deactivate_old, foreground, is_session,
}
use dynamod.Login.State.Consistent.{IsConsistent, seat_of}

lookup-deactivate_old :
    (id : SessionId) (old : Option SessionId) (sessions : Map SessionId Session) (k : SessionId)
    → Map.lookup k (deactivate_old id old sessions) ≡ (
        if is_session k old
        then ite
            (string_discrete id k)
            (Map.lookup k sessions)
            (Option.map deactivate (Map.lookup k sessions))
        else Map.lookup k sessions)
unfolding deactivate_old
lookup-deactivate_old id none sessions k = refl
lookup-deactivate_old id (some old) sessions k =
    ground (arith, lookup-adjust old k deactivate sessions)

abbrev put_in_front : SessionId → Seat → Seat
put_in_front x seat = record seat { active_session = some x }

module _ {Config JoinHandle : Type 0} (x : SessionId) (sid : SeatId)
    (st : LoginState Config JoinHandle) (v : IsConsistent st)
    (there : seat_of (Map.lookup x st.sessions) ≡ some (some sid)) where
  pub switched : LoginState Config JoinHandle
  switched = activate_on x sid st

  pub sessions_switched :
      (id : SessionId)
      → Map.lookup id switched.sessions
        ≡ ite (string_discrete x id) (Option.map activate (Map.lookup id st.sessions)) (
            if is_session id (foreground (Map.lookup sid st.seats))
            then Option.map deactivate (Map.lookup id st.sessions)
            else Map.lookup id st.sessions)
  unfolding switched activate_on
  sessions_switched id =
      let old = foreground (Map.lookup sid st.seats) in
      ground (
        arith,
        lookup-adjust x id activate (deactivate_old x old st.sessions),
        lookup-deactivate_old x old st.sessions id,
      )

  pub seats_switched :
      (k : SeatId)
      → Map.lookup k switched.seats
        ≡ ite
            (string_discrete sid k)
            (Option.map (put_in_front x) (Map.lookup k st.seats))
            (Map.lookup k st.seats)
  unfolding switched activate_on
  seats_switched k = lookup-adjust sid k (put_in_front x) st.seats

  pub users_switched : switched.users ≡ st.users
  unfolding switched activate_on
  users_switched = refl

  pids_switched : switched.pid_to_session ≡ st.pid_to_session
  unfolding switched activate_on
  pids_switched = refl

  -- What is in the foreground of the seat is on no other seat.
  old_on_seat :
      (k : SeatId) (id : SessionId)
      → foreground (Map.lookup k st.seats) ≡ some id
      → seat_of (Map.lookup id st.sessions) ≡ some (some k)
  old_on_seat k id h = v.on_seat k id (v.foreground_listed k id h)

  switched-IsConsistent : IsConsistent switched
  switched-IsConsistent = record {
    on_seat = λ k id h. ground (arith, sessions_switched id, seats_switched k, v.on_seat k id);
    listed_on_seat =
        λ k id h e. ground (arith, sessions_switched id, seats_switched k, v.listed_on_seat k id);
    foreground_listed = λ k id h.
        ground (arith, seats_switched k, v.foreground_listed k id, v.listed_on_seat k id, there);
    foreground_active = λ k id h. ground (
      arith,
      sessions_switched id,
      seats_switched k,
      v.foreground_active k id,
      there,
      old_on_seat k id,
      old_on_seat sid id,
    );
    one_foreground = λ k id h e a.
        ground (arith, sessions_switched id, seats_switched k, v.one_foreground k id, there);
    state_matches = λ id. ground (arith, sessions_switched id, v.state_matches id);
    of_user = λ u id h. ground (arith, sessions_switched id, users_switched, v.of_user u id);
    listed_of_user =
        λ u id h. ground (arith, sessions_switched id, users_switched, v.listed_of_user u id);
    led = λ p id h. ground (arith, sessions_switched id, pids_switched, v.led p id);
  }

-- `activate_session` keeps the login state consistent, whatever session is named.
pub activate_session-IsConsistent :
    {Config JoinHandle : Type 0} (id : SessionId) (st : LoginState Config JoinHandle)
    → IsConsistent st
    → IsConsistent (activate_session id st)
unfolding activate_session switched
activate_session-IsConsistent id st v = elim (Option-cases (Map.lookup id st.sessions)) [
  | inl e ↦ subst IsConsistent (ground (arith, e)) v
  | inr (s, e) ↦ elim (Option-cases s.seat) [
    | inl out ↦ subst IsConsistent (ground (arith, e, out)) v
    | inr (sid, on) ↦
        subst IsConsistent (ground (arith, e, on))
          (switched-IsConsistent id sid st v (ground (arith, e, on)))
  ]
]
