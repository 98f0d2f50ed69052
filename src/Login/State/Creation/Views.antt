-- ===== src/Login/State/Creation/Views.antt =====
-- What the login state shows after `create_session`.
use dynamod.Common.{
  ℕ, ◌≡◌, refl, true, false, ◌&&◌, none, some, arith, ite, if◌then◌else◌, string_discrete,
  ℕ_discrete, string_key, nat_key,
}
use dynamod.Common.Map
use dynamod.Login.Data.{SessionId, SeatId, LoginState, SessionRequest}
use dynamod.Login.State.{create_session, is_first_on_seat, is_session, foreground}
use dynamod.Login.State.Consistent.{
  IsConsistent, is_loose, uid_of, seat_of, is_active, is_present, is_known,
}
use dynamod.Login.State.Creation.{after, first, sessions_after, seats_after, users_after}

module _ {Config JoinHandle : Type 0} (x : SessionId) (now_usec now : ℕ) (r : SessionRequest)
    (st : LoginState Config JoinHandle) (v : IsConsistent st)
    (fresh : Map.lookup x st.sessions ≡ none) where
  abbrev created : LoginState Config JoinHandle
  created = create_session x now_usec now r st

  pub uid_created :
      (id : SessionId)
      → uid_of (Map.lookup id created.sessions)
        ≡ ite (string_discrete x id) (some r.uid) (uid_of (Map.lookup id st.sessions))
  unfolding after
  uid_created id = ground (arith, sessions_after x now_usec now r st v fresh id)

  pub seat_created :
      (id : SessionId)
      → seat_of (Map.lookup id created.sessions)
        ≡ ite (string_discrete x id) (some r.seat_id) (seat_of (Map.lookup id st.sessions))
  unfolding after
  seat_created id = ground (arith, sessions_after x now_usec now r st v fresh id)

  pub active_created : is_active (Map.lookup x created.sessions) ≡ is_first_on_seat r.seat_id st
  unfolding after first
  active_created = ground (arith, sessions_after x now_usec now r st v fresh x)

  pub front_created :
      (k : SeatId)
      → foreground (Map.lookup k created.seats) ≡ (
          if is_session k r.seat_id
            && (is_present (Map.lookup k st.seats) && is_first_on_seat r.seat_id st)
          then some x
          else foreground (Map.lookup k st.seats))
  unfolding after first
  front_created k = ground (arith, seats_after x now_usec now r st v fresh k)

  pub present_created :
      (k : SeatId) → is_present (Map.lookup k created.seats) ≡ is_present (Map.lookup k st.seats)
  unfolding after
  present_created k = ground (arith, seats_after x now_usec now r st v fresh k)

  pub known_created :
      (u : ℕ)
      → is_known (Map.lookup u created.users)
        ≡ ite (ℕ_discrete r.uid u) true (is_known (Map.lookup u st.users))
  unfolding after
  known_created u = ground (arith, users_after x now_usec now r st v fresh u)

  pub loose_created :
      (id : SessionId)
      → is_loose (Map.lookup id created.sessions)
        ≡ ite (string_discrete x id) false (is_loose (Map.lookup id st.sessions))
  unfolding after
  loose_created id = ground (arith, sessions_after x now_usec now r st v fresh id)

  pub rest_created : created.pending_user_cleanups ≡ st.pending_user_cleanups
  unfolding create_session
  rest_created = refl
