-- ===== src/Login/Daemon/Methods.antt =====
-- rust/dynamod-logind/src/manager.rs: the methods that end and activate sessions.
use Prim.Native.String
use dynamod.Common.{
  ℕ, String, List, [], ◌∷◌, Option, none, some, ite, string_discrete, string_key, nat_key,
}
use dynamod.Common.Map
use dynamod.Login.Data.{SessionId, SeatId, Session, User}
use dynamod.Login.Daemon.{
  Daemon, Reply, ok, failed, act, finalize_session_removal, activate_with_acl_handover,
}
use dynamod.Login.Daemon.Actions.{terminate}

abbrev no_such : {A : Type 0} → String → String → Reply A
no_such kind id =
    failed (String.◌++◌ "no " (String.◌++◌ kind (String.◌++◌ " '" (String.◌++◌ id "'"))))

abbrev pub not_on_seat : SessionId → SeatId → Reply (Unit {0})
not_on_seat id seat = failed (
    String.◌++◌ "session '"
      (String.◌++◌ id (String.◌++◌ "' is not on seat '" (String.◌++◌ seat "'"))))

abbrev pub sessions_of_user : Option User → List SessionId
sessions_of_user none = []
sessions_of_user (some user) = user.sessions

module _ {Config : Type 0} where
  unfoldable pub release_session : SessionId → Daemon Config → Daemon Config × Reply (Unit {0})
  release_session id d = elim (Map.lookup id d.state.sessions) [
    | none ↦ (d, no_such "session" id)
    | some _ ↦ (finalize_session_removal id d, ok tt)
  ]

  unfoldable pub activate_session : SessionId → Daemon Config → Daemon Config × Reply (Unit {0})
  activate_session id d = elim (Map.lookup id d.state.sessions) [
    | none ↦ (d, no_such "session" id)
    | some session ↦ (activate_with_acl_handover id session d, ok tt)
  ]

  abbrev pub activate_if_on :
      SessionId
      → SeatId
      → Session
      → Option SeatId
      → Daemon Config
      → Daemon Config × Reply (Unit {0})
  activate_if_on id seat session none d = (d, not_on_seat id seat)
  activate_if_on id seat session (some sid) d =
      ite (string_discrete sid seat) (activate_with_acl_handover id session d, ok tt)
        (d, not_on_seat id seat)

  unfoldable pub activate_session_on_seat :
      SessionId → SeatId → Daemon Config → Daemon Config × Reply (Unit {0})
  activate_session_on_seat id seat d = elim (Map.lookup id d.state.sessions) [
    | none ↦ (d, no_such "session" id)
    | some session ↦ activate_if_on id seat session session.seat d
  ]

  unfoldable pub terminate_session : SessionId → Daemon Config → Daemon Config × Reply (Unit {0})
  terminate_session id d = elim (Map.lookup id d.state.sessions) [
    | none ↦ (d, no_such "session" id)
    | some session ↦
        (finalize_session_removal id (act (terminate session.leader_pid ∷ []) d), ok tt)
  ]

  abbrev pub kill_leader : SessionId → Daemon Config → Daemon Config
  kill_leader id d = elim (Map.lookup id d.state.sessions) [
    | none ↦ d
    | some session ↦ act (terminate session.leader_pid ∷ []) d
  ]

  unfoldable pub kill_leaders : List SessionId → Daemon Config → Daemon Config
  kill_leaders [] d = d
  kill_leaders (id ∷ ids) d = kill_leaders ids (kill_leader id d)

  unfoldable pub finalize_all : List SessionId → Daemon Config → Daemon Config
  finalize_all [] d = d
  finalize_all (id ∷ ids) d = finalize_all ids (finalize_session_removal id d)

  -- All leaders are killed first.
  unfoldable pub terminate_user : ℕ → Daemon Config → Daemon Config × Reply (Unit {0})
  unfolding kill_leaders finalize_all
  terminate_user uid d =
      let ids = sessions_of_user (Map.lookup uid d.state.users) in
      (finalize_all ids (kill_leaders ids d), ok tt)

  unfoldable pub end_all : List SessionId → Daemon Config → Daemon Config
  end_all [] d = d
  end_all (id ∷ ids) d = end_all ids (finalize_session_removal id (kill_leader id d))

  unfoldable pub terminate_seat : SeatId → Daemon Config → Daemon Config × Reply (Unit {0})
  unfolding end_all
  terminate_seat seat_id d = elim (Map.lookup seat_id d.state.seats) [
    | none ↦ (d, no_such "seat" seat_id)
    | some seat ↦ (end_all seat.sessions d, ok tt)
  ]
