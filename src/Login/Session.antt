-- ===== src/Login/Session.antt =====
-- rust/dynamod-logind/src/session.rs: the methods of a session's own object. What opening and duplicating
-- a device yields is an argument, and so are the caller's name and the time. Signals and
-- the object's properties are not modelled.
pub mod Control
pub mod Fine
pub mod Reachable
pub mod Handover
mod Tests
use Prim.Native.String
use dynamod.Common.{
  ℕ, String, Bool, true, false, not, ◌&&◌, ◌==◌, List, [], ◌∷◌, Option, none, some, if◌then◌else◌,
  ite, unwrap_or, string_discrete, string_key, ℕ_discrete,
}
use mathlib.Core.Option
use mathlib.Core.HLevel.{×_discrete}
use dynamod.Common.Key.{Key}
use dynamod.Common.Map
use dynamod.Common.Map.{Map}
use dynamod.Login.Data.{SessionId, Session}
use dynamod.Login.State
use dynamod.Login.Daemon.{Daemon, Reply, ok, failed, invalid_args, act, with_state}
use dynamod.Login.Daemon.Actions.{Action, drm_set_master, terminate}

-- The major and minor number of a device.
abbrev pub DeviceId : Type 0
DeviceId = ℕ × ℕ

instance abbrev pub device_key : Key DeviceId
device_key = record { dec = ×_discrete ℕ_discrete ℕ_discrete }

abbrev pub is_controlled : Option String → Bool
is_controlled none = false
is_controlled (some _) = true

-- A method of a session: the session afterwards, what is asked of the system, and the reply.
abbrev pub Method : Type 0 → Type 0
Method A = Session → Session × List Action × Reply A

unfoldable pub take_control : Bool → Option String → Method (Unit {0})
take_control force sender s =
    if is_controlled s.controller && not force
    then (s, [], failed "session already has a controller")
    else (record s { controller = some (unwrap_or sender "") }, [], ok tt)

unfoldable pub release_control : Method (Unit {0})
release_control s = (record s { controller = none; devices = [] }, [], ok tt)

-- What `open_device` and `dup_fd` yield, or their messages.
pub record Opening : Type 0 where
  pub device : Option ℕ
  pub open_error : String
  pub duplicate : Option ℕ
  pub dup_error : String

abbrev pub drm_major : ℕ
drm_major = 226

-- "Become master if we're the active session".
abbrev pub master : ℕ → ℕ → Bool → List Action
master major fd active = if (major == drm_major) && active then drm_set_master fd ∷ [] else []

-- The descriptor is kept if it could be duplicated for the caller.
abbrev pub keep_device :
    DeviceId → ℕ → Opening → Option ℕ → Session → Session × List Action × Reply (ℕ × Bool)
keep_device (major, minor) fd o none s = (s, master major fd s.active, failed o.dup_error)
keep_device (major, minor) fd o (some copy) s = (
  record s { devices = Map.insert (major, minor) fd s.devices },
  master major fd s.active,
  ok (copy, not s.active),
)

abbrev pub open_free : DeviceId → Opening → Option ℕ → Method (ℕ × Bool)
open_free dev o none s = (s, [], failed o.open_error)
open_free dev o (some fd) s = keep_device dev fd o o.duplicate s

-- `device_message` is the text that names the device.
unfoldable pub take_device : (DeviceId → String) → DeviceId → Opening → Method (ℕ × Bool)
take_device name dev o s = elim s.controller [
  | none ↦ (s, [], failed "caller is not the session controller")
  | some _ ↦ elim (Map.lookup dev s.devices) [
    | some _ ↦ (s, [], failed (String.◌++◌ "device " (String.◌++◌ (name dev) " already taken")))
    | none ↦ open_free dev o o.device s
  ]
]

unfoldable pub release_device : (DeviceId → String) → DeviceId → Method (Unit {0})
release_device name dev s = elim (Map.lookup dev s.devices) [
  | some _ ↦ (record s { devices = Map.remove dev s.devices }, [], ok tt)
  | none ↦ (s, [], failed (String.◌++◌ "device " (String.◌++◌ (name dev) " not taken")))
]

abbrev pub named : String → String → Bool
named a b = ite (string_discrete a b) true false

abbrev pub is_session_type : String → Bool
is_session_type t =
    if named t "tty"
    then true
    else if named t "x11"
    then true
    else if named t "wayland"
    then true
    else if named t "mir"
    then true
    else named t "unspecified"

unfoldable pub set_type : String → Method (Unit {0})
set_type t s =
    if is_session_type t
    then (record s { session_type = t }, [], ok tt)
    else (s, [], invalid_args (String.◌++◌ "unknown session type '" (String.◌++◌ t "'")))

unfoldable pub set_idle_hint : Bool → ℕ → Method (Unit {0})
set_idle_hint idle now_usec s =
    (record s { idle_hint = idle; idle_since_usec = if idle then now_usec else 0 }, [], ok tt)

module _ {Config : Type 0} where
  -- A method runs on the session of the object.
  abbrev pub ran :
      {A : Type 0}
      → SessionId
      → Session × List Action × Reply A
      → Daemon Config
      → Daemon Config × Reply A
  ran id (s, actions, reply) d = (
    act actions (with_state (record (d.state) { sessions = Map.insert id s d.state.sessions }) d),
    reply,
  )

  unfoldable pub on_session :
      {A : Type 0} → SessionId → Method A → Daemon Config → Daemon Config × Reply A
  on_session id method d = elim (Map.lookup id d.state.sessions) [
    | none ↦ (d, failed "session not found")
    | some s ↦ ran id (method s) d
  ]

  -- `Session.activate`, which does not hand the devices over.
  unfoldable pub activate : SessionId → Daemon Config → Daemon Config
  activate id d = with_state (State.activate_session id d.state) d

  -- `Session.terminate`, which does no more than end the leader and remove the session.
  unfoldable pub terminate_own : SessionId → Daemon Config → Daemon Config × Reply (Unit {0})
  terminate_own id d = elim (Map.lookup id d.state.sessions) [
    | none ↦ (d, failed "session not found")
    | some s ↦
        (act (terminate s.leader_pid ∷ []) (with_state (State.remove_session id d.state) d), ok tt)
  ]
