-- ===== src/Login/State.antt =====
-- rust/dynamod-logind/src/state.rs: the operations on the login state.
pub mod Consistent
pub mod Creation
pub mod Switching
pub mod Removal
use dynamod.Common.{
  ℕ, String, Bool, true, false, not, ◌||◌, List, [], ◌∷◌, ◌++◌, Option, none, some, ite,
  if◌then◌else◌, unwrap_or, string_discrete, string_key, nat_key,
}
use dynamod.Common.Map
use dynamod.Common.Map.{Map}
use dynamod.Common.Set
use dynamod.Login.Data.{
  SessionId, SeatId, Session, Seat, User, LoginState, SessionRequest, session_online,
  session_active, session_closing, user_online, user_active,
}

abbrev seat0 : Seat
seat0 = record {
  id = "seat0";
  sessions = [];
  active_session = none;
  can_graphical = true;
  can_tty = true;
  idle_hint = false;
  idle_since_usec = 0;
  idle_since_monotonic = 0;
}

-- Whether an optional session is the given one.
abbrev pub is_session : SessionId → Option SessionId → Bool
is_session id none = false
is_session id (some other) = ite (string_discrete id other) true false

abbrev vacant : Option Seat → Bool
vacant none = true
vacant (some seat) = elim seat.active_session [ none ↦ true | some _ ↦ false ]

-- `now_usec` and `now` are what the two clocks read.
abbrev new_session : SessionId → ℕ → ℕ → Bool → SessionRequest → Session
new_session id now_usec now first request = record {
  id = id;
  uid = request.uid;
  user_name = request.user_name;
  seat = request.seat_id;
  tty = request.tty;
  display = request.display;
  session_type = request.session_type;
  class = request.class;
  desktop = request.desktop;
  state = if first then session_active else session_online;
  active = first;
  leader_pid = request.leader_pid;
  vtnr = request.vtnr;
  remote = request.remote;
  remote_host = request.remote_host;
  remote_user = request.remote_user;
  service = request.service;
  controller = none;
  devices = [];
  idle_hint = false;
  idle_since_usec = 0;
  idle_since_monotonic = 0;
  locked_hint = false;
  created_realtime_usec = now_usec;
  created_monotonic = now;
}

abbrev join_seat : SessionId → Bool → Seat → Seat
join_seat id first seat = record seat {
  sessions = seat.sessions ++ id ∷ [];
  active_session = if first then some id else seat.active_session;
}

seats_with : SessionId → Bool → Option SeatId → Map SeatId Seat → Map SeatId Seat
seats_with id first none seats = seats
seats_with id first (some sid) seats = Map.adjust sid (join_seat id first) seats

abbrev new_user : ℕ → String → User
new_user uid name = record {
  uid = uid;
  name = name;
  sessions = [];
  display_session = none;
  state = user_online;
  idle_hint = false;
  idle_since_usec = 0;
  idle_since_monotonic = 0;
}

abbrev join_user : SessionId → Bool → User → User
join_user id first user = record user {
  sessions = user.sessions ++ id ∷ [];
  state = if first then user_active else user.state;
  display_session = if first then some id else user.display_session;
}

-- `v.first().cloned()`
abbrev pub first_of : List SessionId → Option SessionId
first_of [] = none
first_of (id ∷ _) = some id

abbrev activate : Session → Session
activate s = record s { active = true; state = session_active }

abbrev deactivate : Session → Session
deactivate s = record s { active = false; state = session_online }

abbrev leave_seat : SessionId → Seat → Seat
leave_seat id seat =
    let remaining = Set.remove id seat.sessions in
    record seat {
      sessions = remaining;
      active_session =
          if is_session id seat.active_session then first_of remaining else seat.active_session;
    }

activate_optional : Option SessionId → Map SessionId Session → Map SessionId Session
activate_optional none sessions = sessions
activate_optional (some id) sessions = Map.adjust id activate sessions

-- The next foreground session is activated if the one that leaves was in the foreground.
succeed : SessionId → Option Seat → Map SessionId Session → Map SessionId Session
unfolding activate_optional
succeed id none sessions = sessions
succeed id (some seat) sessions =
    if is_session id seat.active_session
    then activate_optional (first_of (Set.remove id seat.sessions)) sessions
    else sessions

abbrev pub session_is_active : Option Session → Bool
session_is_active none = false
session_is_active (some s) = elim s.state [
  | session_online ↦ false
  | session_active ↦ true
  | session_closing ↦ false
]

any_active : Map SessionId Session → List SessionId → Bool
any_active sessions [] = false
any_active sessions (id ∷ ids) =
    let rest = any_active sessions ids in session_is_active (Map.lookup id sessions) || rest

abbrev leave_user : Map SessionId Session → SessionId → User → User
leave_user sessions id user =
    let remaining = Set.remove id user.sessions in
    record user {
      sessions = remaining;
      display_session =
          if is_session id user.display_session then first_of remaining else user.display_session;
      state = if any_active sessions remaining then user_active else user_online;
    }

abbrev is_empty : List SessionId → Bool
is_empty [] = true
is_empty (_ ∷ _) = false

deactivate_old : SessionId → Option SessionId → Map SessionId Session → Map SessionId Session
deactivate_old id none sessions = sessions
deactivate_old id (some old) sessions =
    if not (is_session id (some old)) then Map.adjust old deactivate sessions else sessions

-- What the seat has in the foreground.
abbrev pub foreground : Option Seat → Option SessionId
foreground none = none
foreground (some seat) = seat.active_session

module _ {Config JoinHandle : Type 0} where
  unfoldable pub with_config : Config → LoginState Config JoinHandle
  with_config config = record {
    sessions = [];
    seats = [];
    users = [];
    pid_to_session = [];
    inhibitors = [];
    config = config;
    pending_user_cleanups = [];
  }

  unfoldable pub create_seat0 : LoginState Config JoinHandle → LoginState Config JoinHandle
  create_seat0 st = record st { seats = Map.insert "seat0" seat0 st.seats }

  pub is_first_on_seat : Option SeatId → LoginState Config JoinHandle → Bool
  is_first_on_seat none st = true
  is_first_on_seat (some sid) st = vacant (Map.lookup sid st.seats)

  -- `create_session`, where `next_session_id` has returned `id`.
  unfoldable pub create_session :
      SessionId
      → ℕ
      → ℕ
      → SessionRequest
      → LoginState Config JoinHandle
      → LoginState Config JoinHandle
  unfolding is_first_on_seat seats_with
  create_session id now_usec now request st =
      let first = is_first_on_seat request.seat_id st in
      let user =
        unwrap_or (Map.lookup request.uid st.users) (new_user request.uid request.user_name) in
      record st {
        sessions = Map.insert id (new_session id now_usec now first request) st.sessions;
        pid_to_session = Map.insert request.leader_pid id st.pid_to_session;
        seats = seats_with id first request.seat_id st.seats;
        users = Map.insert request.uid (join_user id first user) st.users;
      }

  unfoldable pub remove_from_seat :
      SessionId → Option SeatId → LoginState Config JoinHandle → LoginState Config JoinHandle
  unfolding succeed
  remove_from_seat id none st = st
  remove_from_seat id (some sid) st = record st {
    seats = Map.adjust sid (leave_seat id) st.seats;
    sessions = succeed id (Map.lookup sid st.seats) st.sessions;
  }

  unfoldable pub remove_from_user :
      SessionId → ℕ → LoginState Config JoinHandle → LoginState Config JoinHandle
  unfolding any_active
  remove_from_user id uid st = elim (Map.lookup uid st.users) [
    | none ↦ st
    | some user ↦ record st {
      users =
          if is_empty (Set.remove id user.sessions)
          then Map.remove uid st.users
          else Map.insert uid (leave_user st.sessions id user) st.users;
    }
  ]

  unfoldable pub remove_session :
      SessionId → LoginState Config JoinHandle → LoginState Config JoinHandle
  unfolding remove_from_seat remove_from_user
  remove_session session_id st = elim (Map.lookup session_id st.sessions) [
    | none ↦ st
    | some session ↦ remove_from_user session_id session.uid (
        remove_from_seat session_id session.seat (record st {
          sessions = Map.remove session_id st.sessions;
          pid_to_session = Map.remove session.leader_pid st.pid_to_session;
        }))
  ]

  abbrev pub session_for_pid : ℕ → LoginState Config JoinHandle → Option SessionId
  session_for_pid pid st = Map.lookup pid st.pid_to_session

  activate_on : SessionId → SeatId → LoginState Config JoinHandle → LoginState Config JoinHandle
  unfolding deactivate_old
  activate_on id sid st = record st {
    sessions =
        Map.adjust id activate
          (deactivate_old id (foreground (Map.lookup sid st.seats)) st.sessions);
    seats = Map.adjust sid (λ seat. record seat { active_session = some id }) st.seats;
  }

  unfoldable pub activate_session :
      SessionId → LoginState Config JoinHandle → LoginState Config JoinHandle
  unfolding activate_on
  activate_session session_id st = elim (Map.lookup session_id st.sessions) [
    | none ↦ st
    | some session ↦ elim session.seat [ none ↦ st | some sid ↦ activate_on session_id sid st ]
  ]
