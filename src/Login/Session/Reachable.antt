-- ===== src/Login/Session/Reachable.antt =====
-- What holds whatever is asked of the manager's object and of the sessions' own objects.
use dynamod.Common.{
  ℕ, String, ◌≡◌, refl, false, List, [], ◌∷◌, Option, none, some, arith, ite, inl, inr,
  Option-cases, string_discrete, string_key, nat_key,
}
use dynamod.Common.Map
use dynamod.Login.Data.{SessionId, SeatId, Session}
use dynamod.Login.State
use dynamod.Login.State.Consistent.{is_loose}
use dynamod.Login.State.Creation.{create_seat0-with_config}
use dynamod.Login.Daemon
use dynamod.Login.Daemon.{
  Daemon, Reply, ok, failed, invalid_args, Outside, CreateCall, cancel_cleanup, choose_seat,
  begin_session, create_session, schedule_cleanup, finalize, finalize_session_removal,
  activate_with_acl_handover, wake, forget,
}
use dynamod.Login.Daemon.Methods
use dynamod.Login.Daemon.Methods.{
  kill_leader, kill_leaders, finalize_all, end_all, sessions_of_user, activate_if_on, not_on_seat,
}
use dynamod.Login.Daemon.Calls.{
  started, Step, create, release, activate, activate_on, end_session, end_user, end_seat, woken,
  released, forgotten,
}
use dynamod.Login.Session.{
  DeviceId, Method, terminate_own, on_session, take_control, release_control, take_device,
  release_device, set_type, set_idle_hint,
}
use dynamod.Login.Session
use dynamod.Login.Session.Control.{
  Asked, control, drop_control, device, return_device, type_of, idle, serve-controlled,
  serve-SamePlace, SamePlace,
}
use dynamod.Login.Session.Fine.{
  IsFine, pending-IsFine, created-IsFine, removed-IsFine, activated-IsFine, replaced-IsFine,
}

module _ {Config : Type 0} where
  abbrev pub Fine : Daemon Config → Type 0
  Fine d = IsFine d.state

  cancel_cleanup-Fine : (u : ℕ) (d : Daemon Config) → Fine d → Fine (cancel_cleanup u d)
  unfolding cancel_cleanup
  cancel_cleanup-Fine u d v = elim (Option-cases (Map.lookup u d.state.pending_user_cleanups)) [
    | inl e ↦ rw (cancel_cleanup, e) v
    | inr (h, e) ↦ rw (cancel_cleanup, e) (pending-IsFine d.state _ v)
  ]

  sessions_cancelled :
      (u : ℕ) (d : Daemon Config) → (cancel_cleanup u d).state.sessions ≡ d.state.sessions
  unfolding cancel_cleanup
  sessions_cancelled u d = ground (arith)

  begin_session-Fine :
      (o : Outside Config) (c : CreateCall) (seat : Option SeatId) (d : Daemon Config)
      → Map.lookup o.id d.state.sessions ≡ none
      → Fine d
      → Fine (begin_session o c seat d)
  unfolding begin_session
  begin_session-Fine o c seat d fresh v =
      created-IsFine o.id o.now_usec o.now _ (cancel_cleanup c.uid d).state
        (ground (arith, fresh, sessions_cancelled c.uid d)) (cancel_cleanup-Fine c.uid d v)

  create_session-Fine :
      (o : Outside Config) (c : CreateCall) (d : Daemon Config) (r : Reply (Option SeatId))
      → choose_seat c.seat_id d.state.seats ≡ r
      → Map.lookup o.id d.state.sessions ≡ none
      → Fine d
      → Fine ((create_session o c d).0)
  unfolding create_session
  create_session-Fine o c d (ok seat) e fresh v =
      rw (create_session, e) (begin_session-Fine o c seat d fresh v)
  create_session-Fine o c d (failed m) e fresh v = rw (create_session, e) v
  create_session-Fine o c d (invalid_args m) e fresh v = rw (create_session, e) v

  finalize-Fine :
      (id : SessionId) (s : Session) (d : Daemon Config) → Fine d → Fine (finalize id s d)
  unfolding finalize schedule_cleanup
  finalize-Fine id s d v =
      let st = State.remove_session id d.state in
      elim (Option-cases (Map.lookup s.uid st.users)) [
        | inl e ↦ rw (finalize, e) (pending-IsFine st _ (removed-IsFine id d.state v))
        | inr (u, e) ↦ rw (finalize, e) (removed-IsFine id d.state v)
      ]

  finalized-Fine :
      (id : SessionId) (d : Daemon Config) → Fine d → Fine (finalize_session_removal id d)
  unfolding finalize_session_removal
  finalized-Fine id d v = elim (Option-cases (Map.lookup id d.state.sessions)) [
    | inl e ↦ rw (finalize_session_removal, e) v
    | inr (s, e) ↦ rw (finalize_session_removal, e) (finalize-Fine id s d v)
  ]

  finalize_all-Fine :
      (ids : List SessionId) (d : Daemon Config) → Fine d → Fine (finalize_all ids d)
  unfolding finalize_all
  finalize_all-Fine [] d v = v
  finalize_all-Fine (id ∷ ids) d v = finalize_all-Fine ids _ (finalized-Fine id d v)

  kill_leader-Fine : (id : SessionId) (d : Daemon Config) → Fine d → Fine (kill_leader id d)
  kill_leader-Fine id d v = elim (Option-cases (Map.lookup id d.state.sessions)) [
    | inl e ↦ rw (kill_leader, e) v
    | inr (s, e) ↦ rw (kill_leader, e) v
  ]

  kill_leaders-Fine :
      (ids : List SessionId) (d : Daemon Config) → Fine d → Fine (kill_leaders ids d)
  unfolding kill_leaders
  kill_leaders-Fine [] d v = v
  kill_leaders-Fine (id ∷ ids) d v = kill_leaders-Fine ids _ (kill_leader-Fine id d v)

  end_all-Fine : (ids : List SessionId) (d : Daemon Config) → Fine d → Fine (end_all ids d)
  unfolding end_all
  end_all-Fine [] d v = v
  end_all-Fine (id ∷ ids) d v = end_all-Fine ids _ (finalized-Fine id _ (kill_leader-Fine id d v))

  handed-Fine :
      (id : SessionId) (s : Session) (d : Daemon Config)
      → Fine d
      → Fine (activate_with_acl_handover id s d)
  unfolding activate_with_acl_handover
  handed-Fine id s d v = activated-IsFine id d.state v

  on_seat-Fine :
      (id : SessionId) (seat : SeatId) (s : Session) (on : Option SeatId) (d : Daemon Config)
      → Fine d
      → Fine ((activate_if_on id seat s on d).0)
  on_seat-Fine id seat s none d v = v
  on_seat-Fine id seat s (some sid) d v =
      elim (string_discrete sid seat)
        as (λ which. Fine (
          (ite {C = Daemon Config × Reply (Unit {0})} which
            (activate_with_acl_handover id s d, ok tt) (d, not_on_seat id seat)).0)) [
              | yes same ↦ handed-Fine id s d v
              | no other ↦ v
            ]

  step-Fine : {d d' : Daemon Config} → Step d d' → Fine d → Fine d'
  unfolding Methods.release_session Methods.activate_session Methods.activate_session_on_seat
      Methods.terminate_session Methods.terminate_user Methods.terminate_seat wake Daemon.release
      forget
  step-Fine (create o c d fresh) v =
      create_session-Fine o c d (choose_seat c.seat_id d.state.seats) refl fresh v
  step-Fine (release id d) v = elim (Option-cases (Map.lookup id d.state.sessions)) [
    | inl e ↦ rw (Methods.release_session, e) v
    | inr (s, e) ↦ rw (Methods.release_session, e) (finalized-Fine id d v)
  ]
  step-Fine (activate id d) v = elim (Option-cases (Map.lookup id d.state.sessions)) [
    | inl e ↦ rw (Methods.activate_session, e) v
    | inr (s, e) ↦ rw (Methods.activate_session, e) (handed-Fine id s d v)
  ]
  step-Fine (activate_on id seat d) v = elim (Option-cases (Map.lookup id d.state.sessions)) [
    | inl e ↦ rw (Methods.activate_session_on_seat, e) v
    | inr (s, e) ↦ rw (Methods.activate_session_on_seat, e) (on_seat-Fine id seat s s.seat d v)
  ]
  step-Fine (end_session id d) v = elim (Option-cases (Map.lookup id d.state.sessions)) [
    | inl e ↦ rw (Methods.terminate_session, e) v
    | inr (s, e) ↦ rw (Methods.terminate_session, e) (finalized-Fine id _ v)
  ]
  step-Fine (end_user u d) v =
      let ids = sessions_of_user (Map.lookup u d.state.users) in
      finalize_all-Fine ids (kill_leaders ids d) (kill_leaders-Fine ids d v)
  step-Fine (end_seat k d) v = elim (Option-cases (Map.lookup k d.state.seats)) [
    | inl e ↦ rw (Methods.terminate_seat, e) v
    | inr (s, e) ↦ rw (Methods.terminate_seat, e) (end_all-Fine s.sessions d v)
  ]
  step-Fine (woken h u d there) v = elim (Option-cases (Map.lookup u d.state.users)) [
    | inl e ↦ rw (wake, e) v
    | inr (user, e) ↦ rw (wake, e) v
  ]
  step-Fine (released h u b d there) v = v
  step-Fine (forgotten h u d there) v = pending-IsFine d.state _ v

  -- What the object of a session does with a call.
  abbrev pub answer : (DeviceId → String) → Asked → SessionId → Daemon Config → Daemon Config
  answer name (control force sender) id d = (on_session id (take_control force sender) d).0
  answer name drop_control id d = (on_session id release_control d).0
  answer name (device dev o) id d = (on_session id (take_device name dev o) d).0
  answer name (return_device dev) id d = (on_session id (release_device name dev) d).0
  answer name (type_of t) id d = (on_session id (set_type t) d).0
  answer name (idle b now) id d = (on_session id (set_idle_hint b now) d).0

  on_session-Fine :
      {A : Type 0} (id : SessionId) (method : Method A) (d : Daemon Config)
      → ((s : Session) → SamePlace s ((method s).0))
      → ((s : Session) → is_loose (some s) ≡ false → is_loose (some ((method s).0)) ≡ false)
      → Fine d
      → Fine ((on_session id method d).0)
  unfolding on_session
  on_session-Fine id method d keeps tight v = elim (Option-cases (Map.lookup id d.state.sessions)) [
    | inl e ↦ rw (on_session, e) v
    | inr (s, e) ↦
        rw (on_session, e)
          (replaced-IsFine id s ((method s).0) d.state e (keeps s)
            (tight s (ground (arith, e, v.controlled id))) v)
  ]

  answer-Fine :
      (name : DeviceId → String) (a : Asked) (id : SessionId) (d : Daemon Config)
      → Fine d
      → Fine (answer name a id d)
  answer-Fine name (control force sender) id d v =
      let a = control force sender in
      on_session-Fine id (take_control force sender) d (serve-SamePlace name a)
        (serve-controlled name a) v
  answer-Fine name drop_control id d v =
      on_session-Fine id release_control d (serve-SamePlace name drop_control)
        (serve-controlled name drop_control) v
  answer-Fine name (device dev o) id d v =
      let a = device dev o in
      on_session-Fine id (take_device name dev o) d (serve-SamePlace name a)
        (serve-controlled name a) v
  answer-Fine name (return_device dev) id d v =
      let a = return_device dev in
      on_session-Fine id (release_device name dev) d (serve-SamePlace name a)
        (serve-controlled name a) v
  answer-Fine name (type_of t) id d v =
      on_session-Fine id (set_type t) d (serve-SamePlace name (type_of t))
        (serve-controlled name (type_of t)) v
  answer-Fine name (idle b now) id d v =
      on_session-Fine id (set_idle_hint b now) d (serve-SamePlace name (idle b now))
        (serve-controlled name (idle b now)) v

  own-Fine : (id : SessionId) (d : Daemon Config) → Fine d → Fine ((terminate_own id d).0)
  unfolding terminate_own
  own-Fine id d v = elim (Option-cases (Map.lookup id d.state.sessions)) [
    | inl e ↦ rw (terminate_own, e) v
    | inr (s, e) ↦ rw (terminate_own, e) (removed-IsFine id d.state v)
  ]

  -- A state that calls of the manager's object and of sessions' own objects lead to, and clean-up tasks.
  pub data Reached (config : Config) : Daemon Config → Type 0 where
    at_start : Reached config (started config)
    by_manager : {d d' : Daemon Config} → Reached config d → Step d d' → Reached config d'
    by_object :
        {d : Daemon Config} (name : DeviceId → String) (a : Asked) (id : SessionId)
        → Reached config d
        → Reached config (answer name a id d)
    own_activate :
        {d : Daemon Config} (id : SessionId)
        → Reached config d
        → Reached config (Session.activate id d)
    own_terminate :
        {d : Daemon Config} (id : SessionId)
        → Reached config d
        → Reached config ((terminate_own id d).0)

  started-Fine : (config : Config) → Fine (started config)
  unfolding started State.create_seat0 State.with_config Map.lookup
  started-Fine config = record {
    consistent = create_seat0-with_config config;
    controlled = λ id. refl;
  }

  -- In every state that any calls of the manager's object and of the sessions' own objects lead to,
  -- and clean-up tasks between them, the login state is consistent, and no session has devices open
  -- without a controller.
  pub Reached-Fine : (config : Config) {d : Daemon Config} → Reached config d → Fine d
  unfolding Session.activate
  Reached-Fine config at_start = started-Fine config
  Reached-Fine config (by_manager before step) = step-Fine step (Reached-Fine config before)
  Reached-Fine config (by_object name a id before) =
      answer-Fine name a id _ (Reached-Fine config before)
  Reached-Fine config (own_activate id before) = activated-IsFine id _ (Reached-Fine config before)
  Reached-Fine config (own_terminate id before) = own-Fine id _ (Reached-Fine config before)
