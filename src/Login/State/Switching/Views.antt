-- ===== src/Login/State/Switching/Views.antt =====
-- What the login state shows after `activate_session`.
use dynamod.Common.{◌≡◌, true, some, arith, ite, string_discrete, string_key, nat_key}
use dynamod.Common.Map
use dynamod.Login.Data.{SessionId, SeatId, Session, LoginState}
use dynamod.Login.State.{activate_session, activate_on, foreground}
use dynamod.Login.State.Consistent.{IsConsistent, is_loose, uid_of, seat_of, is_present}
use dynamod.Login.State.Switching.{switched, sessions_switched, seats_switched, users_switched}

module _ {Config JoinHandle : Type 0} (x : SessionId) (s : Session) (sid : SeatId)
    (st : LoginState Config JoinHandle) (v : IsConsistent st)
    (there : Map.lookup x st.sessions ≡ some s) (on : s.seat ≡ some sid) where
  abbrev moved : LoginState Config JoinHandle
  moved = activate_session x st

  its_seat : seat_of (Map.lookup x st.sessions) ≡ some (some sid)
  its_seat = ground (arith, there, on)

  moved-switched : moved ≡ switched x sid st v its_seat
  unfolding activate_session switched
  moved-switched = ground (arith, there, on)

  pub uid_moved :
      (id : SessionId) → uid_of (Map.lookup id moved.sessions) ≡ uid_of (Map.lookup id st.sessions)
  uid_moved id = ground (arith, moved-switched, sessions_switched x sid st v its_seat id)

  pub seat_moved :
      (id : SessionId)
      → seat_of (Map.lookup id moved.sessions) ≡ seat_of (Map.lookup id st.sessions)
  seat_moved id = ground (arith, moved-switched, sessions_switched x sid st v its_seat id)

  pub present_moved :
      (k : SeatId) → is_present (Map.lookup k moved.seats) ≡ is_present (Map.lookup k st.seats)
  present_moved k = ground (arith, moved-switched, seats_switched x sid st v its_seat k)

  pub front_moved :
      (k : SeatId)
      → is_present (Map.lookup sid st.seats) ≡ true
      → foreground (Map.lookup k moved.seats)
        ≡ ite (string_discrete sid k) (some x) (foreground (Map.lookup k st.seats))
  front_moved k h = ground (arith, h, moved-switched, seats_switched x sid st v its_seat k)

  pub loose_moved :
      (id : SessionId)
      → is_loose (Map.lookup id moved.sessions) ≡ is_loose (Map.lookup id st.sessions)
  loose_moved id = ground (arith, moved-switched, sessions_switched x sid st v its_seat id)

  pub users_moved : moved.users ≡ st.users
  users_moved = ground (arith, moved-switched, users_switched x sid st v its_seat)

  pub rest_moved : moved.pending_user_cleanups ≡ st.pending_user_cleanups
  unfolding activate_session activate_on
  rest_moved = ground (arith, there, on)
