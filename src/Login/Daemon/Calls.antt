-- ===== src/Login/Daemon/Calls.antt =====
-- The calls the login daemon serves, one after another, and the clean-up tasks between them.
use dynamod.Common.{
  ℕ, ◌≡◌, refl, ◌∙◌, ◌⊎◌, Bool, true, false, List, [], ◌∷◌, Option, none, some, arith, inl, inr,
  ite, Option-cases, string_key, nat_key, string_discrete, String,
}
use dynamod.Common.Map
use dynamod.Login.Data.{SessionId, SeatId, Session}
use dynamod.Login.State
use dynamod.Login.State.Consistent.{is_present}
use dynamod.Login.State.Creation.{create_seat0-with_config}
use dynamod.Login.Daemon
use dynamod.Login.Daemon.{
  Daemon, Reply, ok, failed, invalid_args, Outside, CreateCall, act, cancel_cleanup, choose_seat,
  begin_session, create_session, wake, forget, Task, sleeping, forgetting, releasing,
  activate_with_acl_handover,
}
use dynamod.Login.Daemon.Actions.{
  terminate, holder, holder-append, wants_runtime_dir, wants_runtime_dir-append,
}
use dynamod.Login.Daemon.Methods.{
  release_session, activate_session, activate_session_on_seat, terminate_session, terminate_user,
  terminate_seat, kill_leader, kill_leaders, finalize_all, end_all, sessions_of_user,
  activate_if_on, not_on_seat,
}
use dynamod.Login.Daemon.Sound.{IsSound, user_of, is_releasing, begun-IsSound}
use dynamod.Login.Daemon.Cleanup.{
  cancel_cleanup-IsSound, wake-IsSound, release-IsSound, forget-IsSound,
}
use dynamod.Login.Daemon.Ending.{
  finalize_session_removal-IsSound, activate_with_acl_handover-IsSound,
}

Reply-cases :
    {A : Type 0} (r : Reply A)
    → ((a : A) × (r ≡ ok a))
      ⊎ (((m : String) × (r ≡ failed m)) ⊎ ((m : String) × (r ≡ invalid_args m)))
Reply-cases (ok a) = inl (a, refl)
Reply-cases (failed m) = inr (inl (m, refl))
Reply-cases (invalid_args m) = inr (inr (m, refl))

module _ {Config : Type 0} where
  -- Before the first call.
  unfoldable pub started : Config → Daemon Config
  started config = record {
    state = State.create_seat0 (State.with_config config);
    tasks = [];
    next_handle = 0;
    actions = [];
  }

  started-IsSound : (config : Config) → IsSound (started config)
  unfolding started State.create_seat0 State.with_config Map.insert Map.lookup holder
  started-IsSound config = record {
    consistent = create_seat0-with_config config;
    seated = λ k id there. ground (arith, there);
    devices = λ k. elim (string_discrete "seat0" k) [
      | yes e ↦ ground (arith, e)
      | no e ↦ ground (arith, e)
    ];
    runtime = λ u known. ground (arith, known);
    tasked = λ h u there. ground (arith, there);
    unused = λ h le. refl;
  }

  terminate-IsSound :
      (pid : ℕ) (d : Daemon Config) → IsSound d → IsSound (act (terminate pid ∷ []) d)
  unfolding holder wants_runtime_dir
  terminate-IsSound pid d v = record {
    consistent = v.consistent;
    seated = v.seated;
    devices = λ k. holder-append k d.actions (terminate pid ∷ []) none ∙ v.devices k;
    runtime = λ u known.
        wants_runtime_dir-append u d.actions (terminate pid ∷ []) false ∙ v.runtime u known;
    tasked = v.tasked;
    unused = v.unused;
  }

  cancel_cleanup-sessions :
      (u : ℕ) (d : Daemon Config) → (cancel_cleanup u d).state.sessions ≡ d.state.sessions
  unfolding cancel_cleanup
  cancel_cleanup-sessions u d = ground (arith)

  cancel_cleanup-seats :
      (u : ℕ) (d : Daemon Config) → (cancel_cleanup u d).state.seats ≡ d.state.seats
  unfolding cancel_cleanup
  cancel_cleanup-seats u d = ground (arith)

  -- No clean-up task of the user is between its reading that the user is gone and the end of the
  -- removal.
  abbrev pub NotReleasing : ℕ → Daemon Config → Type 0
  NotReleasing uid d =
      (h : ℕ)
      → user_of (Map.lookup h d.tasks) ≡ some uid
      → is_releasing (Map.lookup h d.tasks) ≡ false

  begin_session-IsSound :
      (o : Outside Config) (c : CreateCall) (seat : Option SeatId) (d : Daemon Config)
      → Map.lookup o.id d.state.sessions ≡ none
      → NotReleasing c.uid d
      → ((k : SeatId) → seat ≡ some k → is_present (Map.lookup k d.state.seats) ≡ true)
      → IsSound d
      → IsSound (begin_session o c seat d)
  unfolding begin_session
  begin_session-IsSound o c seat d fresh waits free v =
      let (sound, idle) = cancel_cleanup-IsSound c.uid d waits v in
      begun-IsSound o c seat _ _ (cancel_cleanup c.uid d) sound
        (ground (arith, fresh, cancel_cleanup-sessions c.uid d))
        (λ k e. ground (arith, e, free k, cancel_cleanup-seats c.uid d)) idle

  choose_seat-present :
      (seat_id : String) (seat : Option SeatId) (d : Daemon Config) (k : SeatId)
      → choose_seat seat_id d.state.seats ≡ ok seat
      → seat ≡ some k
      → is_present (Map.lookup k d.state.seats) ≡ true
  unfolding choose_seat
  choose_seat-present seat_id seat d k chosen e = ground (arith, chosen, e)

  create_session-IsSound :
      (o : Outside Config) (c : CreateCall) (d : Daemon Config)
      → Map.lookup o.id d.state.sessions ≡ none
      → NotReleasing c.uid d
      → IsSound d
      → IsSound ((create_session o c d).0)
  unfolding create_session
  create_session-IsSound o c d fresh waits v =
      elim (Reply-cases (choose_seat c.seat_id d.state.seats)) [
        | inl (seat, e) ↦
            rw (create_session, e)
              (begin_session-IsSound o c seat d fresh waits
                (λ k there. choose_seat-present c.seat_id seat d k e there) v)
        | inr (inl (message, e)) ↦ rw (create_session, e) v
        | inr (inr (message, e)) ↦ rw (create_session, e) v
      ]

  activate_session-IsSound :
      (id : SessionId) (d : Daemon Config) → IsSound d → IsSound ((activate_session id d).0)
  unfolding activate_session
  activate_session-IsSound id d v = elim (Option-cases (Map.lookup id d.state.sessions)) [
    | inl e ↦ rw (activate_session, e) v
    | inr (s, e) ↦ rw (activate_session, e) (activate_with_acl_handover-IsSound id s d e v)
  ]

  release_session-IsSound :
      (id : SessionId) (d : Daemon Config) → IsSound d → IsSound ((release_session id d).0)
  unfolding release_session
  release_session-IsSound id d v = elim (Option-cases (Map.lookup id d.state.sessions)) [
    | inl e ↦ rw (release_session, e) v
    | inr (s, e) ↦ rw (release_session, e) (finalize_session_removal-IsSound id d v)
  ]

  terminate_session-IsSound :
      (id : SessionId) (d : Daemon Config) → IsSound d → IsSound ((terminate_session id d).0)
  unfolding terminate_session
  terminate_session-IsSound id d v = elim (Option-cases (Map.lookup id d.state.sessions)) [
    | inl e ↦ rw (terminate_session, e) v
    | inr (s, e) ↦
        rw (terminate_session, e)
          (finalize_session_removal-IsSound id _ (terminate-IsSound s.leader_pid d v))
  ]

  activate_if_on-IsSound :
      (id : SessionId) (seat : SeatId) (s : Session) (on : Option SeatId) (d : Daemon Config)
      → IsSound (activate_with_acl_handover id s d)
      → IsSound d
      → IsSound ((activate_if_on id seat s on d).0)
  activate_if_on-IsSound id seat s none d v w = w
  activate_if_on-IsSound id seat s (some sid) d v w =
      elim (string_discrete sid seat)
        as (λ which. IsSound (
          (ite {C = Daemon Config × Reply (Unit {0})} which
            (activate_with_acl_handover id s d, ok tt) (d, not_on_seat id seat)).0)) [
              | yes same ↦ v
              | no other ↦ w
            ]

  activate_session_on_seat-IsSound :
      (id : SessionId) (seat : SeatId) (d : Daemon Config)
      → IsSound d
      → IsSound ((activate_session_on_seat id seat d).0)
  unfolding activate_session_on_seat
  activate_session_on_seat-IsSound id seat d v =
      elim (Option-cases (Map.lookup id d.state.sessions)) [
        | inl e ↦ rw (activate_session_on_seat, e) v
        | inr (s, e) ↦
            rw (activate_session_on_seat, e)
              (activate_if_on-IsSound id seat s s.seat d
                (activate_with_acl_handover-IsSound id s d e v) v)
      ]

  kill_leader-IsSound :
      (id : SessionId) (d : Daemon Config) → IsSound d → IsSound (kill_leader id d)
  kill_leader-IsSound id d v = elim (Option-cases (Map.lookup id d.state.sessions)) [
    | inl e ↦ rw (kill_leader, e) v
    | inr (s, e) ↦ rw (kill_leader, e) (terminate-IsSound s.leader_pid d v)
  ]

  kill_leaders-IsSound :
      (ids : List SessionId) (d : Daemon Config) → IsSound d → IsSound (kill_leaders ids d)
  unfolding kill_leaders
  kill_leaders-IsSound [] d v = v
  kill_leaders-IsSound (id ∷ ids) d v = kill_leaders-IsSound ids _ (kill_leader-IsSound id d v)

  finalize_all-IsSound :
      (ids : List SessionId) (d : Daemon Config) → IsSound d → IsSound (finalize_all ids d)
  unfolding finalize_all
  finalize_all-IsSound [] d v = v
  finalize_all-IsSound (id ∷ ids) d v =
      finalize_all-IsSound ids _ (finalize_session_removal-IsSound id d v)

  end_all-IsSound : (ids : List SessionId) (d : Daemon Config) → IsSound d → IsSound (end_all ids d)
  unfolding end_all
  end_all-IsSound [] d v = v
  end_all-IsSound (id ∷ ids) d v =
      end_all-IsSound ids _ (finalize_session_removal-IsSound id _ (kill_leader-IsSound id d v))

  terminate_seat-IsSound :
      (k : SeatId) (d : Daemon Config) → IsSound d → IsSound ((terminate_seat k d).0)
  unfolding terminate_seat
  terminate_seat-IsSound k d v = elim (Option-cases (Map.lookup k d.state.seats)) [
    | inl e ↦ rw (terminate_seat, e) v
    | inr (s, e) ↦ rw (terminate_seat, e) (end_all-IsSound s.sessions d v)
  ]

  terminate_user-IsSound :
      (u : ℕ) (d : Daemon Config) → IsSound d → IsSound ((terminate_user u d).0)
  unfolding terminate_user
  terminate_user-IsSound u d v =
      let ids = sessions_of_user (Map.lookup u d.state.users) in
      finalize_all-IsSound ids (kill_leaders ids d) (kill_leaders-IsSound ids d v)

  -- A call, or a step of a clean-up task; a new session has an identifier that is not in use.
  pub data Step : Daemon Config → Daemon Config → Type 0 where
    create :
        (o : Outside Config) (c : CreateCall) (d : Daemon Config)
        → Map.lookup o.id d.state.sessions ≡ none
        → Step d ((create_session o c d).0)
    release : (id : SessionId) (d : Daemon Config) → Step d ((release_session id d).0)
    activate : (id : SessionId) (d : Daemon Config) → Step d ((activate_session id d).0)
    activate_on :
        (id : SessionId) (seat : SeatId) (d : Daemon Config)
        → Step d ((activate_session_on_seat id seat d).0)
    end_session : (id : SessionId) (d : Daemon Config) → Step d ((terminate_session id d).0)
    end_user : (uid : ℕ) (d : Daemon Config) → Step d ((terminate_user uid d).0)
    end_seat : (seat : SeatId) (d : Daemon Config) → Step d ((terminate_seat seat d).0)
    woken :
        (handle uid : ℕ) (d : Daemon Config)
        → Map.lookup handle d.tasks ≡ some (record { uid = uid; stage = sleeping })
        → Step d (wake handle uid d)
    released :
        (handle uid : ℕ) (aborted : Bool) (d : Daemon Config)
        → Map.lookup handle d.tasks ≡ some (record { uid = uid; stage = releasing aborted })
        → Step d (Daemon.release handle uid aborted d)
    forgotten :
        (handle uid : ℕ) (d : Daemon Config)
        → Map.lookup handle d.tasks ≡ some (record { uid = uid; stage = forgetting })
        → Step d (forget handle uid d)

  -- A session does not begin while the directories of its user are being removed.
  unfoldable pub IsApart : {d d' : Daemon Config} → Step d d' → Type 0
  IsApart (create o c d fresh) = NotReleasing c.uid d
  IsApart _ = Unit

  pub data Reach (config : Config) : Daemon Config → Type 0 where
    start : Reach config (started config)
    next : {d d' : Daemon Config} → Reach config d → (s : Step d d') → IsApart s → Reach config d'

  step-IsSound : {d d' : Daemon Config} (s : Step d d') → IsApart s → IsSound d → IsSound d'
  unfolding IsApart
  step-IsSound (create o c d fresh) waits v = create_session-IsSound o c d fresh waits v
  step-IsSound (release id d) _ v = release_session-IsSound id d v
  step-IsSound (activate id d) _ v = activate_session-IsSound id d v
  step-IsSound (activate_on id seat d) _ v = activate_session_on_seat-IsSound id seat d v
  step-IsSound (end_session id d) _ v = terminate_session-IsSound id d v
  step-IsSound (end_user u d) _ v = terminate_user-IsSound u d v
  step-IsSound (end_seat k d) _ v = terminate_seat-IsSound k d v
  step-IsSound (woken h u d there) _ v = wake-IsSound h u d (ground (arith, there)) v
  step-IsSound (released h u b d there) _ v = release-IsSound h u d (ground (arith, there)) v b
  step-IsSound (forgotten h u d there) _ v = forget-IsSound h u d (ground (arith, there)) v

  -- In every state that calls of the manager's object and clean-up tasks lead to from the start, where
  -- each call runs without another in between, the steps of a task may have calls between them, and
  -- no session of a user begins from the moment a clean-up task has read that the user is gone until
  -- it has removed the user's directories: the login state is consistent, every session's seat exists,
  -- the last request for the devices of each seat hands them over to the user of the session in its
  -- foreground, for every user with a session a runtime directory was asked for and its removal was
  -- not since, and there is no clean-up task for a user with a session. Whether a request succeeds is
  -- not part of it, and neither are calls of the sessions' own objects.
  pub reachable-IsSound : (config : Config) {d : Daemon Config} → Reach config d → IsSound d
  reachable-IsSound config start = started-IsSound config
  reachable-IsSound config (next before step apart) =
      step-IsSound step apart (reachable-IsSound config before)
