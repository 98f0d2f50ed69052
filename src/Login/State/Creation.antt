-- ===== src/Login/State/Creation.antt =====
-- `create_session` and `activate_session` keep the login state consistent.
pub mod Views
use dynamod.Common.{
  ℕ, ◌≡◌, refl, Bool, false, Option, none, some, arith, ite, if◌then◌else◌, unwrap_or,
  string_discrete, ℕ_discrete, string_key, nat_key,
}
use mathlib.Core.Option
use dynamod.Common.Map
use dynamod.Common.Map.{lookup-insert, lookup-adjust}
use dynamod.Common.Set
use dynamod.Common.Set.{contains-push}
use dynamod.Login.Data.{SessionId, SeatId, Seat, User, LoginState, SessionRequest}
use dynamod.Login.State.{
  create_session, is_first_on_seat, seats_with, new_session, join_seat, join_user, new_user,
  with_config, create_seat0, is_session, vacant,
}
use dynamod.Login.State.Consistent.{IsConsistent, sessions_on, sessions_of}

-- The state at start-up, with one seat and nothing on it.
pub create_seat0-with_config :
    {Config JoinHandle : Type 0} (config : Config)
    → IsConsistent {Config = Config} {JoinHandle = JoinHandle} (create_seat0 (with_config config))
unfolding create_seat0 with_config Map.lookup Map.insert Set.contains
create_seat0-with_config config = record {
  on_seat = λ k id h. ground arith;
  listed_on_seat = λ k id h e. ground arith;
  foreground_listed = λ k id h. ground arith;
  foreground_active = λ k id h. ground arith;
  one_foreground = λ k id h e a. ground arith;
  state_matches = λ id. ground arith;
  of_user = λ u id h. ground arith;
  listed_of_user = λ u id h. ground arith;
  led = λ p id h. ground arith;
}

lookup-seats_with :
    (id : SessionId) (first : Bool) (sid : Option SeatId) (seats : Map.Map SeatId Seat) (k : SeatId)
    → Map.lookup k (seats_with id first sid seats) ≡ (
        if is_session k sid
        then Option.map (join_seat id first) (Map.lookup k seats)
        else Map.lookup k seats)
unfolding seats_with
lookup-seats_with id first none seats k = refl
lookup-seats_with id first (some sid) seats k =
    ground (arith, lookup-adjust sid k (join_seat id first) seats)

module _ {Config JoinHandle : Type 0} (id0 : SessionId) (now_usec now : ℕ) (r : SessionRequest)
    (st : LoginState Config JoinHandle) (v : IsConsistent st)
    (fresh : Map.lookup id0 st.sessions ≡ none) where
  pub after : LoginState Config JoinHandle
  after = create_session id0 now_usec now r st

  pub first : Bool
  first = is_first_on_seat r.seat_id st

  pub sessions_after :
      (id : SessionId)
      → Map.lookup id after.sessions
        ≡ ite
            (string_discrete id0 id)
            (some (new_session id0 now_usec now first r))
            (Map.lookup id st.sessions)
  unfolding after create_session first
  sessions_after id = lookup-insert id0 id (new_session id0 now_usec now first r) st.sessions

  pub seats_after :
      (k : SeatId)
      → Map.lookup k after.seats ≡ (
          if is_session k r.seat_id
          then Option.map (join_seat id0 first) (Map.lookup k st.seats)
          else Map.lookup k st.seats)
  unfolding after create_session first
  seats_after k = lookup-seats_with id0 first r.seat_id st.seats k

  pub user : User
  user = unwrap_or (Map.lookup r.uid st.users) (new_user r.uid r.user_name)

  pub users_after :
      (u : ℕ)
      → Map.lookup u after.users
        ≡ ite (ℕ_discrete r.uid u) (some (join_user id0 first user)) (Map.lookup u st.users)
  unfolding after create_session first user
  users_after u = lookup-insert r.uid u (join_user id0 first user) st.users

  pids_after :
      (p : ℕ)
      → Map.lookup p after.pid_to_session
        ≡ ite (ℕ_discrete r.leader_pid p) (some id0) (Map.lookup p st.pid_to_session)
  unfolding after create_session
  pids_after p = lookup-insert r.leader_pid p id0 st.pid_to_session

  pub first_vacant : (k : SeatId) → r.seat_id ≡ some k → first ≡ vacant (Map.lookup k st.seats)
  unfolding first is_first_on_seat
  first_vacant k h = ground (arith, h)

  -- The new session is on no list yet.
  not_on_seat : (k : SeatId) → Set.contains id0 (sessions_on (Map.lookup k st.seats)) ≡ false
  not_on_seat k = ground (arith, v.on_seat k id0)

  after-IsConsistent : IsConsistent after
  unfolding user Set.contains
  after-IsConsistent = record {
    on_seat = λ k id h. ground (
      arith,
      seats_after k,
      sessions_after id,
      v.on_seat k id,
      contains-push id0 id (sessions_on (Map.lookup k st.seats)),
    );
    listed_on_seat = λ k id h e. ground (
      arith,
      seats_after k,
      sessions_after id,
      v.listed_on_seat k id,
      contains-push id0 id (sessions_on (Map.lookup k st.seats)),
    );
    foreground_listed = λ k id h. ground (
      arith,
      seats_after k,
      v.foreground_listed k id,
      contains-push id0 id (sessions_on (Map.lookup k st.seats)),
    );
    foreground_active =
        λ k id h. ground (arith, seats_after k, sessions_after id, v.foreground_active k id);
    one_foreground = λ k id h e a.
        ground (arith, seats_after k, sessions_after id, v.one_foreground k id, first_vacant k);
    state_matches = λ id. ground (arith, sessions_after id, v.state_matches id);
    of_user = λ u id h. ground (
      arith,
      users_after u,
      sessions_after id,
      v.of_user u id,
      contains-push id0 id (sessions_of (Map.lookup u st.users)),
    );
    listed_of_user = λ u id h. ground (
      arith,
      users_after u,
      sessions_after id,
      v.listed_of_user u id,
      contains-push id0 id (sessions_of (Map.lookup u st.users)),
    );
    led = λ p id h. ground (arith, pids_after p, sessions_after id, v.led p id);
  }

-- `create_session` with an identifier that is new keeps the login state consistent.
pub create_session-IsConsistent :
    {Config JoinHandle : Type 0} (id : SessionId) (now_usec now : ℕ) (r : SessionRequest)
    (st : LoginState Config JoinHandle)
    → IsConsistent st
    → Map.lookup id st.sessions ≡ none
    → IsConsistent (create_session id now_usec now r st)
unfolding after
create_session-IsConsistent id now_usec now r st v fresh =
    after-IsConsistent id now_usec now r st v fresh
