-- ===== src/Login/State/Consistent.antt =====
-- What ties sessions, seats, users and process ids together.
use dynamod.Common.{
  ℕ, String, ◌&&◌, ◌∷◌, ◌≡◌, Bool, true, false, List, [], Option, none, some, string_key, nat_key,
}
use mathlib.Core.Option
use dynamod.Common.Map
use dynamod.Common.Map.{Map}
use dynamod.Common.Set
use dynamod.Login.Data.{SessionId, SeatId, Session, Seat, User, LoginState}
use dynamod.Login.State.{session_is_active, foreground}

abbrev pub is_present : Option Seat → Bool
is_present none = false
is_present (some _) = true

abbrev pub is_known : Option User → Bool
is_known none = false
is_known (some _) = true

abbrev pub sessions_on : Option Seat → List SessionId
sessions_on none = []
sessions_on (some seat) = seat.sessions

abbrev pub sessions_of : Option User → List SessionId
sessions_of none = []
sessions_of (some user) = user.sessions

abbrev pub seat_of : Option Session → Option (Option SeatId)
seat_of = Option.map (λ s. s.seat)

abbrev pub uid_of : Option Session → Option ℕ
uid_of = Option.map (λ s. s.uid)

abbrev pub leader_of : Option Session → Option ℕ
leader_of = Option.map (λ s. s.leader_pid)

abbrev pub is_active : Option Session → Bool
is_active none = false
is_active (some s) = s.active

abbrev pub has_no_controller : Option String → Bool
has_no_controller none = true
has_no_controller (some _) = false

abbrev pub has_devices : Map (ℕ × ℕ) ℕ → Bool
has_devices [] = false
has_devices (_ ∷ _) = true

-- The user of the session in the foreground of a seat.
abbrev pub foreground_uid : Option Seat → Map SessionId Session → Option ℕ
foreground_uid seat sessions = elim (foreground seat) [
  | none ↦ none
  | some id ↦ uid_of (Map.lookup id sessions)
]

-- A seat's list holds the sessions on that seat and a user's list that user's sessions, and no
-- others; the session in a seat's foreground is on its list, and is the one session of the seat
-- that is active; a session's flag agrees with its state; and a process id that leads to a session
-- is that session's leader.
pub record IsConsistent {Config JoinHandle : Type 0} (st : LoginState Config JoinHandle)
    : Type 0 where
  pub on_seat :
      (k : SeatId) (id : SessionId)
      → Set.contains id (sessions_on (Map.lookup k st.seats)) ≡ true
      → seat_of (Map.lookup id st.sessions) ≡ some (some k)
  pub listed_on_seat :
      (k : SeatId) (id : SessionId)
      → is_present (Map.lookup k st.seats) ≡ true
      → seat_of (Map.lookup id st.sessions) ≡ some (some k)
      → Set.contains id (sessions_on (Map.lookup k st.seats)) ≡ true
  pub foreground_listed :
      (k : SeatId) (id : SessionId)
      → foreground (Map.lookup k st.seats) ≡ some id
      → Set.contains id (sessions_on (Map.lookup k st.seats)) ≡ true
  pub foreground_active :
      (k : SeatId) (id : SessionId)
      → foreground (Map.lookup k st.seats) ≡ some id
      → is_active (Map.lookup id st.sessions) ≡ true
  pub one_foreground :
      (k : SeatId) (id : SessionId)
      → is_present (Map.lookup k st.seats) ≡ true
      → seat_of (Map.lookup id st.sessions) ≡ some (some k)
      → is_active (Map.lookup id st.sessions) ≡ true
      → foreground (Map.lookup k st.seats) ≡ some id
  pub state_matches :
      (id : SessionId)
      → session_is_active (Map.lookup id st.sessions) ≡ is_active (Map.lookup id st.sessions)
  pub of_user :
      (u : ℕ) (id : SessionId)
      → Set.contains id (sessions_of (Map.lookup u st.users)) ≡ true
      → uid_of (Map.lookup id st.sessions) ≡ some u
  pub listed_of_user :
      (u : ℕ) (id : SessionId)
      → uid_of (Map.lookup id st.sessions) ≡ some u
      → Set.contains id (sessions_of (Map.lookup u st.users)) ≡ true
  pub led :
      (p : ℕ) (id : SessionId)
      → Map.lookup p st.pid_to_session ≡ some id
      → leader_of (Map.lookup id st.sessions) ≡ some p

-- Devices are open without a controller.
abbrev pub is_loose : Option Session → Bool
is_loose none = false
is_loose (some s) = has_no_controller s.controller && has_devices s.devices

-- No session has devices open without a controller.
abbrev pub IsControlled : {Config JoinHandle : Type 0} → LoginState Config JoinHandle → Type 0
IsControlled st = (id : SessionId) → is_loose (Map.lookup id st.sessions) ≡ false
