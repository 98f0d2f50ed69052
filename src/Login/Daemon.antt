-- ===== src/Login/Daemon.antt =====
-- rust/dynamod-logind/src/manager.rs: the methods of the login daemon that change its state. Each runs
-- without another in between. A clean-up task takes three steps, between which others may run: it
-- reads under the lock whether the user is gone, it removes the directories without the lock, and it
-- takes the lock again to note that it is done. What the code reads
-- from outside is an argument: the name and the group of a user, the next identifier, the clocks,
-- and how the text of a user's number begins. The registration of objects on the bus is left out.
pub mod Actions
pub mod Methods
pub mod Sound
pub mod Cleanup
pub mod Ending
pub mod Calls
pub mod Tests
use Prim.Native.String
use dynamod.Common.{
  ℕ, suc, String, Bool, true, false, not, ◌==◌, List, [], ◌∷◌, ◌++◌, Option, none, some, ite,
  if◌then◌else◌, unwrap_or, string_discrete, string_key, nat_key,
}
use mathlib.Core.Option
use dynamod.Common.Map
use dynamod.Common.Map.{Map}
use dynamod.Login.Data.{SessionId, SeatId, Session, Seat, User, LoginState, SessionRequest}
use dynamod.Login.State
use dynamod.Login.State.{foreground}
use dynamod.Login.State.Consistent.{uid_of, is_active, foreground_uid}
use Actions.{
  Action, ensure_runtime_dir, release_runtime_dir, place_leader, release_scope, release_user_slice,
  apply_session_acl, revert_session_acl, terminate,
}

-- How far a clean-up task is. Where it does not wait it cannot be aborted: an abort while it releases
-- takes effect afterwards.
pub data Stage : Type 0 where
  sleeping forgetting : Stage
  releasing : (aborted : Bool) → Stage

pub record Task : Type 0 where
  pub uid : ℕ
  pub stage : Stage

-- `tasks`: the clean-up tasks that are not over, by their handles.
pub record Daemon (Config : Type 0) : Type 0 where
  pub state : LoginState Config ℕ
  pub tasks : Map ℕ Task
  pub next_handle : ℕ
  pub actions : List Action

pub data Reply (A : Type 0) : Type 0 where
  ok : A → Reply A
  failed invalid_args : String → Reply A

-- The arguments of the method `create_session`.
pub record CreateCall : Type 0 where
  pub uid : ℕ
  pub pid : ℕ
  pub service : String
  pub session_type : String
  pub class : String
  pub desktop : String
  pub seat_id : String
  pub vtnr : ℕ
  pub tty : String
  pub display : String
  pub remote : Bool
  pub remote_user : String
  pub remote_host : String

abbrev pub is_empty : String → Bool
is_empty String.[] = true
is_empty _ = false

abbrev pub is_seat : Option Seat → Bool
is_seat none = false
is_seat (some _) = true

-- "Use provided or default to seat0".
unfoldable pub choose_seat : String → Map SeatId Seat → Reply (Option SeatId)
choose_seat seat_id seats =
    if is_empty seat_id
    then ok (if is_seat (Map.lookup "seat0" seats) then some "seat0" else none)
    else if is_seat (Map.lookup seat_id seats)
    then ok (some seat_id)
    else invalid_args (String.◌++◌ "seat '" (String.◌++◌ seat_id "' does not exist"))

abbrev pub or_else : String → String → String
or_else s default = if is_empty s then default else s

abbrev pub optional : String → Option String
optional s = if is_empty s then none else some s

abbrev pub request_of : CreateCall → String → Option SeatId → SessionRequest
request_of c user_name seat = record {
  uid = c.uid;
  user_name = user_name;
  leader_pid = c.pid;
  service = c.service;
  session_type = or_else c.session_type "tty";
  class = or_else c.class "user";
  desktop = c.desktop;
  seat_id = seat;
  vtnr = c.vtnr;
  tty = optional c.tty;
  display = optional c.display;
  remote = c.remote;
  remote_user = c.remote_user;
  remote_host = c.remote_host;
}

-- What `create_session` reads from outside.
pub record Outside (Config : Type 0) : Type 0 where
  pub user_info : ℕ → Option (String × ℕ)
  pub name_of_uid : ℕ → String
  pub runtime_directory_size : Config → String
  pub id : SessionId
  pub now_usec : ℕ
  pub now : ℕ

abbrev pub in_front : Map SeatId Seat → Map SessionId Session → Option SeatId → Option ℕ
in_front seats sessions none = none
in_front seats sessions (some sid) = foreground_uid (Map.lookup sid seats) sessions

-- The devices after a session that was active is gone.
unfoldable pub pass_on : SeatId → ℕ → Option ℕ → List Action
pass_on seat uid none = revert_session_acl seat ∷ []
pass_on seat uid (some new) =
    if new == uid then [] else revert_session_acl seat ∷ apply_session_acl seat new ∷ []

abbrev pub given : SeatId → Option ℕ → List Action
given seat none = []
given seat (some new) = apply_session_acl seat new ∷ []

abbrev pub is_same : Option ℕ → ℕ → Bool
is_same none old = false
is_same (some new) old = new == old

abbrev pub taken : SeatId → Option ℕ → Option ℕ → List Action
taken seat none new = []
taken seat (some old) new = if is_same new old then [] else revert_session_acl seat ∷ []

-- Of the seat, the user before and the new user, the fields of `AclHandover`.
unfoldable pub run_acl_handover : Option SeatId → Option ℕ → Option ℕ → List Action
run_acl_handover none old_uid new_uid = []
run_acl_handover (some seat) old_uid new_uid = taken seat old_uid new_uid ++ given seat new_uid

-- The session that is in front, unless it is the one given.
abbrev pub other_than : SessionId → Option SessionId → Option SessionId
other_than id none = none
other_than id (some old) = ite (string_discrete old id) none (some old)

abbrev pub uid_at : Map SessionId Session → Option SessionId → Option ℕ
uid_at sessions none = none
uid_at sessions (some id) = uid_of (Map.lookup id sessions)

abbrev pub seat_at : Map SeatId Seat → Option SeatId → Option Seat
seat_at seats none = none
seat_at seats (some sid) = Map.lookup sid seats

abbrev pub acl_of_new : Bool → Option SeatId → ℕ → List Action
acl_of_new active none uid = []
acl_of_new active (some seat) uid = if active then apply_session_acl seat uid ∷ [] else []

abbrev pub is_gone : Option User → Bool
is_gone none = true
is_gone (some _) = false

abbrev pub passed_on : Bool → Option SeatId → ℕ → Option ℕ → List Action
passed_on was_active none uid new = []
passed_on was_active (some seat) uid new = if was_active then pass_on seat uid new else []

abbrev pub abort_stage : ℕ → ℕ → Stage → Map ℕ Task → Map ℕ Task
abort_stage handle uid sleeping tasks = Map.remove handle tasks
abort_stage handle uid forgetting tasks = Map.remove handle tasks
abort_stage handle uid (releasing aborted) tasks =
    Map.insert handle (record { uid = uid; stage = releasing true }) tasks

-- `handle.abort()`
abbrev pub abort_at : ℕ → Option Task → Map ℕ Task → Map ℕ Task
abort_at handle none tasks = tasks
abort_at handle (some t) tasks = abort_stage handle t.uid t.stage tasks

abbrev pub abort : ℕ → Map ℕ Task → Map ℕ Task
abort handle tasks = abort_at handle (Map.lookup handle tasks) tasks

module _ {Config : Type 0} where
  abbrev pub act : List Action → Daemon Config → Daemon Config
  act xs d = record d { actions = d.actions ++ xs }

  abbrev pub with_state : LoginState Config ℕ → Daemon Config → Daemon Config
  with_state st d = record d { state = st }

  -- "Cancel it: they're logging back in before the grace period expired".
  unfoldable pub cancel_cleanup : ℕ → Daemon Config → Daemon Config
  cancel_cleanup uid d = elim (Map.lookup uid d.state.pending_user_cleanups) [
    | none ↦ d
    | some handle ↦ record d {
      tasks = abort handle d.tasks;
      state = record (d.state) {
        pending_user_cleanups = Map.remove uid d.state.pending_user_cleanups;
      };
    }
  ]

  -- What `create_session` does once the seat is chosen.
  unfoldable pub begin_session :
      Outside Config → CreateCall → Option SeatId → Daemon Config → Daemon Config
  unfolding cancel_cleanup
  begin_session o c seat d =
      let (user_name, gid) = unwrap_or (o.user_info c.uid) (o.name_of_uid c.uid, c.uid) in
      let d' = cancel_cleanup c.uid d in
      let st = State.create_session o.id o.now_usec o.now (request_of c user_name seat) d'.state in
      act
        (ensure_runtime_dir c.uid gid (o.runtime_directory_size st.config)
          ∷ place_leader c.uid o.id c.pid
          ∷ acl_of_new (is_active (Map.lookup o.id st.sessions)) seat c.uid)
        (with_state st d')

  unfoldable pub create_session :
      Outside Config
      → CreateCall
      → Daemon Config
      → Daemon Config × Reply (SessionId × Option SeatId)
  unfolding choose_seat begin_session
  create_session o c d = elim (choose_seat c.seat_id d.state.seats) [
    | ok seat ↦ (begin_session o c seat d, ok (o.id, seat))
    | failed message ↦ (d, failed message)
    | invalid_args message ↦ (d, invalid_args message)
  ]

  -- The task that removes the runtime directory later.
  unfoldable pub schedule_cleanup : ℕ → Daemon Config → Daemon Config
  schedule_cleanup uid d = record d {
    tasks = Map.insert d.next_handle (record { uid = uid; stage = sleeping }) d.tasks;
    next_handle = suc d.next_handle;
    state = record (d.state) {
      pending_user_cleanups = Map.insert uid d.next_handle d.state.pending_user_cleanups;
    };
  }

  unfoldable pub finalize : SessionId → Session → Daemon Config → Daemon Config
  unfolding schedule_cleanup pass_on
  finalize session_id session d =
      let st = State.remove_session session_id d.state in
      let released = act (release_scope session.uid session_id ∷ []) (with_state st d) in
      let scheduled =
        if is_gone (Map.lookup session.uid st.users)
        then schedule_cleanup session.uid released
        else released in
      act
        (passed_on session.active session.seat session.uid
          (in_front st.seats st.sessions session.seat))
        scheduled

  unfoldable pub finalize_session_removal : SessionId → Daemon Config → Daemon Config
  unfolding finalize
  finalize_session_removal session_id d = elim (Map.lookup session_id d.state.sessions) [
    | none ↦ d
    | some session ↦ finalize session_id session d
  ]

  -- `activate_with_acl_handover` and `run_acl_handover`
  unfoldable pub activate_with_acl_handover : SessionId → Session → Daemon Config → Daemon Config
  unfolding run_acl_handover
  activate_with_acl_handover session_id session d =
      let st = d.state in
      let old = other_than session_id (foreground (seat_at st.seats session.seat)) in
      act (run_acl_handover session.seat (uid_at st.sessions old) (some session.uid))
        (with_state (State.activate_session session_id st) d)

  -- A clean-up task that slept reads whether its user is "still gone".
  unfoldable pub wake : ℕ → ℕ → Daemon Config → Daemon Config
  wake handle uid d =
      if is_gone (Map.lookup uid d.state.users)
      then record d {
        tasks = Map.insert handle (record { uid = uid; stage = releasing false }) d.tasks;
      }
      else record d { tasks = Map.remove handle d.tasks }

  -- Without the lock, it removes the runtime directory and the slice.
  unfoldable pub release : ℕ → ℕ → Bool → Daemon Config → Daemon Config
  release handle uid aborted d =
      act (release_runtime_dir uid ∷ release_user_slice uid ∷ []) (record d {
        tasks =
            if aborted
            then Map.remove handle d.tasks
            else Map.insert handle (record { uid = uid; stage = forgetting }) d.tasks;
      })

  -- With the lock again, it removes its handle.
  unfoldable pub forget : ℕ → ℕ → Daemon Config → Daemon Config
  forget handle uid d = record d {
    tasks = Map.remove handle d.tasks;
    state = record (d.state) {
      pending_user_cleanups = Map.remove uid d.state.pending_user_cleanups;
    };
  }
