-- ===== src/Login/State/Removal/Views.antt =====
-- What the login state shows after `remove_session`.
use dynamod.Common.{
  ℕ, ◌≡◌, ◌≢◌, true, false, none, some, arith, ite, Option-cases, inl, inr, string_discrete,
  string_key, nat_key,
}
use dynamod.Common.Map
use dynamod.Common.Map.{lookup-insert, lookup-remove}
use dynamod.Login.Data.{SessionId, SeatId, Session, LoginState}
use dynamod.Login.State.{
  leave_user, remove_session, remove_from_seat, remove_from_user, is_session, foreground,
}
use dynamod.Login.State.Consistent.{
  IsConsistent, is_loose, uid_of, seat_of, is_present, is_known, foreground_uid,
}
use dynamod.Login.State.Removal.{
  removed, forgotten, unseated, same_unseated, sessions_removed, seats_removed,
}

module _ {Config JoinHandle : Type 0} (x : SessionId) (s : Session)
    (st : LoginState Config JoinHandle) (v : IsConsistent st)
    (there : Map.lookup x st.sessions ≡ some s) where
  abbrev left : LoginState Config JoinHandle
  left = remove_session x st

  left-removed : left ≡ removed x s st v there
  unfolding remove_session removed unseated forgotten
  left-removed = ground (arith, there)

  pub uid_left :
      (id : SessionId)
      → uid_of (Map.lookup id left.sessions)
        ≡ ite (string_discrete x id) none (uid_of (Map.lookup id st.sessions))
  uid_left id = ground (arith, left-removed, sessions_removed x s st v there id)

  pub seat_left :
      (id : SessionId)
      → seat_of (Map.lookup id left.sessions)
        ≡ ite (string_discrete x id) none (seat_of (Map.lookup id st.sessions))
  seat_left id = ground (arith, left-removed, sessions_removed x s st v there id)

  pub present_left :
      (k : SeatId) → is_present (Map.lookup k left.seats) ≡ is_present (Map.lookup k st.seats)
  present_left k = ground (arith, left-removed, seats_removed x s st v there k)

  -- A seat that has another session in its foreground keeps it there.
  front_left :
      (k : SeatId)
      → is_session x (foreground (Map.lookup k st.seats)) ≡ false
      → foreground (Map.lookup k left.seats) ≡ foreground (Map.lookup k st.seats)
  front_left k h = ground (arith, h, left-removed, seats_removed x s st v there k)

  pub front_uid_left :
      (k : SeatId)
      → is_session x (foreground (Map.lookup k st.seats)) ≡ false
      → foreground_uid (Map.lookup k left.seats) left.sessions
        ≡ foreground_uid (Map.lookup k st.seats) st.sessions
  front_uid_left k h = elim (Option-cases (foreground (Map.lookup k st.seats))) [
    | inl e ↦ ground (arith, h, e, front_left k)
    | inr (id, e) ↦ ground (arith, h, e, front_left k, uid_left id)
  ]

  pub known_left :
      (u : ℕ) → is_known (Map.lookup u left.users) ≡ true → is_known (Map.lookup u st.users) ≡ true
  unfolding removed unseated remove_from_user
  known_left u h = elim (Option-cases (Map.lookup s.uid st.users)) [
    | inl e ↦ ground (arith, h, left-removed, same_unseated x s st v there s.seat, e)
    | inr (user, e) ↦ ground (
      arith,
      h,
      left-removed,
      same_unseated x s st v there s.seat,
      e,
      lookup-remove s.uid u st.users,
      lookup-insert s.uid u (leave_user (unseated x s st v there).sessions x user) st.users,
    )
  ]

  pub other_left : (u : ℕ) → s.uid ≢ u → Map.lookup u left.users ≡ Map.lookup u st.users
  unfolding removed unseated remove_from_user
  other_left u h = elim (Option-cases (Map.lookup s.uid st.users)) [
    | inl e ↦ ground (arith, h, left-removed, same_unseated x s st v there s.seat, e)
    | inr (user, e) ↦ ground (
      arith,
      h,
      left-removed,
      same_unseated x s st v there s.seat,
      e,
      lookup-remove s.uid u st.users,
      lookup-insert s.uid u (leave_user (unseated x s st v there).sessions x user) st.users,
    )
  ]

  pub loose_left :
      (id : SessionId)
      → is_loose (Map.lookup id left.sessions)
        ≡ ite (string_discrete x id) false (is_loose (Map.lookup id st.sessions))
  loose_left id = ground (arith, left-removed, sessions_removed x s st v there id)

  pub rest_left : left.pending_user_cleanups ≡ st.pending_user_cleanups
  unfolding remove_session remove_from_seat remove_from_user
  rest_left = ground (arith, there)
