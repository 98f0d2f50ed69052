-- ===== src/Login/Data.antt =====
-- rust/dynamod-logind/src/state.rs and inhibitor.rs: sessions, seats, users and inhibitors. A file
-- descriptor is a number, and so are instants and times in microseconds.
use dynamod.Common.{ℕ, String, Bool, List, Option}
use dynamod.Common.Map.{Map}

abbrev pub SessionId : Type 0
SessionId = String

abbrev pub SeatId : Type 0
SeatId = String

pub data SessionState : Type 0 where
  session_online session_active session_closing : SessionState

abbrev pub session_state_as_str : SessionState → String
session_state_as_str session_online = "online"
session_state_as_str session_active = "active"
session_state_as_str session_closing = "closing"

pub record Session : Type 0 where
  pub id : SessionId
  pub uid : ℕ
  pub user_name : String
  pub seat : Option SeatId
  pub tty : Option String
  pub display : Option String
  pub session_type : String
  pub class : String
  pub desktop : String
  pub state : SessionState
  pub active : Bool
  pub leader_pid : ℕ
  pub vtnr : ℕ
  pub remote : Bool
  pub remote_host : String
  pub remote_user : String
  pub service : String
  pub controller : Option String
  pub devices : Map (ℕ × ℕ) ℕ
  pub idle_hint : Bool
  pub idle_since_usec : ℕ
  pub idle_since_monotonic : ℕ
  pub locked_hint : Bool
  pub created_realtime_usec : ℕ
  pub created_monotonic : ℕ

pub record Seat : Type 0 where
  pub id : SeatId
  pub sessions : List SessionId
  pub active_session : Option SessionId
  pub can_graphical : Bool
  pub can_tty : Bool
  pub idle_hint : Bool
  pub idle_since_usec : ℕ
  pub idle_since_monotonic : ℕ

pub data UserState : Type 0 where
  user_online user_active user_lingering user_closing : UserState

abbrev pub user_state_as_str : UserState → String
user_state_as_str user_online = "online"
user_state_as_str user_active = "active"
user_state_as_str user_lingering = "lingering"
user_state_as_str user_closing = "closing"

pub record User : Type 0 where
  pub uid : ℕ
  pub name : String
  pub sessions : List SessionId
  pub display_session : Option SessionId
  pub state : UserState
  pub idle_hint : Bool
  pub idle_since_usec : ℕ
  pub idle_since_monotonic : ℕ

pub record Inhibitor : Type 0 where
  pub what : String
  pub who : String
  pub why : String
  pub mode : String
  pub uid : ℕ
  pub pid : ℕ
  pub cookie : ℕ
  pub pipe_read : ℕ

-- The configuration and the handles of clean-up tasks are opaque here.
pub record LoginState (Config JoinHandle : Type 0) : Type 0 where
  pub sessions : Map SessionId Session
  pub seats : Map SeatId Seat
  pub users : Map ℕ User
  pub pid_to_session : Map ℕ SessionId
  pub inhibitors : List Inhibitor
  pub config : Config
  pub pending_user_cleanups : Map ℕ JoinHandle

-- The arguments of `create_session`.
pub record SessionRequest : Type 0 where
  pub uid : ℕ
  pub user_name : String
  pub leader_pid : ℕ
  pub service : String
  pub session_type : String
  pub class : String
  pub desktop : String
  pub seat_id : Option SeatId
  pub vtnr : ℕ
  pub tty : Option String
  pub display : Option String
  pub remote : Bool
  pub remote_user : String
  pub remote_host : String
