-- ===== src/Login/Daemon/Cleanup.antt =====
-- The clean-up tasks, and cancelling them, keep the login daemon sound.
use dynamod.Common.{
  ℕ, ◌≡◌, ◌≢◌, Bool, true, false, not, refl, [], ◌∷◌, none, some, arith, inl, inr, Option-cases,
  string_key, nat_key,
}
use dynamod.Common.Map
use dynamod.Common.Map.{Map, lookup-insert, lookup-remove}
use dynamod.Login.State.Consistent.{is_known}
use dynamod.Login.Daemon.{
  Daemon, cancel_cleanup, wake, release, forget, Stage, sleeping, forgetting, releasing, Task,
  abort, abort_stage, act,
}
use dynamod.Login.Daemon.Actions.{
  release_runtime_dir, release_user_slice, holder, wants_runtime_dir, holder-append,
  wants_runtime_dir-append,
}
use dynamod.Login.Daemon.Sound.{IsSound, with_pending, user_of, is_release, is_releasing}

-- An abort makes no new task, and ends one that waits.
record Aborted (handle : ℕ) (tasks after : Map ℕ Task) (ends : Bool) : Type 0 where
  pub users :
      (h u : ℕ) → user_of (Map.lookup h after) ≡ some u → user_of (Map.lookup h tasks) ≡ some u
  pub unused : (h : ℕ) → Map.lookup h tasks ≡ none → Map.lookup h after ≡ none
  pub ended : ends ≡ true → Map.lookup handle after ≡ none

removed-Aborted :
    (handle : ℕ) (tasks : Map ℕ Task) → Aborted handle tasks (Map.remove handle tasks) true
removed-Aborted handle tasks = record {
  users = λ h u there. ground (arith, there, lookup-remove handle h tasks);
  unused = λ h e. ground (arith, e, lookup-remove handle h tasks);
  ended = λ e. ground (arith, lookup-remove handle handle tasks);
}

stage-Aborted :
    (handle uid : ℕ) (stage : Stage) (tasks : Map ℕ Task)
    → user_of (Map.lookup handle tasks) ≡ some uid
    → Aborted handle tasks (abort_stage handle uid stage tasks) (not (is_release stage))
stage-Aborted handle uid sleeping tasks there = removed-Aborted handle tasks
stage-Aborted handle uid forgetting tasks there = removed-Aborted handle tasks
stage-Aborted handle uid (releasing aborted) tasks there =
    let marked : Task = record { uid = uid; stage = releasing true } in
    record {
      users = λ h u e. ground (arith, e, there, lookup-insert handle h marked tasks);
      unused = λ h e. ground (arith, e, there, lookup-insert handle h marked tasks);
      ended = λ e. absurd (cc);
    }

abort-Aborted :
    (handle : ℕ) (tasks : Map ℕ Task)
    → Aborted handle tasks (abort handle tasks) (not (is_releasing (Map.lookup handle tasks)))
abort-Aborted handle tasks = elim (Option-cases (Map.lookup handle tasks)) [
  | inl e ↦ rw (e) (record { users = λ h u there. there; unused = λ h gone. gone; ended = λ t. e })
  | inr (t, e) ↦ rw (e) (stage-Aborted handle t.uid t.stage tasks (ground (arith, e)))
]

module _ {Config : Type 0} where
  -- Where the clean-up of a user is pending, and no task of that user releases.
  module _ (uid handle : ℕ) (d : Daemon Config)
      (pending : Map.lookup uid d.state.pending_user_cleanups ≡ some handle)
      (waits : (h : ℕ)
        → user_of (Map.lookup h d.tasks) ≡ some uid
        → is_releasing (Map.lookup h d.tasks) ≡ false)
      (v : IsSound d) where
    none_left : (h : ℕ) → user_of (Map.lookup h (abort handle d.tasks)) ≢ some uid
    none_left h there =
        let was = (abort-Aborted handle d.tasks).users h uid there in
        let same : h ≡ handle = ground (arith, v.tasked h uid was, pending) in
        let gone : Map.lookup handle (abort handle d.tasks) ≡ none =
          (abort-Aborted handle d.tasks).ended (ground (arith, waits h was, same)) in
        absurd (ground (arith, same, gone, there))

    cancelled-IsSound : IsSound (record d {
      tasks = abort handle d.tasks;
      state = record (d.state) {
        pending_user_cleanups = Map.remove uid d.state.pending_user_cleanups;
      };
    })
    cancelled-IsSound = record {
      consistent = with_pending d.state _ v.consistent;
      seated = v.seated;
      devices = v.devices;
      runtime = v.runtime;
      tasked = λ h u there. ground (
        arith,
        there,
        none_left h,
        v.tasked h u ((abort-Aborted handle d.tasks).users h u there),
        lookup-remove uid u d.state.pending_user_cleanups,
      );
      unused = λ h le. (abort-Aborted handle d.tasks).unused h (v.unused h le);
    }

  -- A user's clean-up can be cancelled unless it is being carried out.
  pub cancel_cleanup-IsSound :
      (uid : ℕ) (d : Daemon Config)
      → ((h : ℕ)
          → user_of (Map.lookup h d.tasks) ≡ some uid
          → is_releasing (Map.lookup h d.tasks) ≡ false)
      → IsSound d
      → IsSound (cancel_cleanup uid d)
        × ((h : ℕ) → user_of (Map.lookup h (cancel_cleanup uid d).tasks) ≢ some uid)
  unfolding cancel_cleanup
  cancel_cleanup-IsSound uid d waits v =
      elim (Option-cases (Map.lookup uid d.state.pending_user_cleanups)) [
        | inl e ↦
            rw (cancel_cleanup, e) (v, λ h there. absurd (ground (arith, e, v.tasked h uid there)))
        | inr (handle, e) ↦
            rw (cancel_cleanup, e)
              (cancelled-IsSound uid handle d e waits v, none_left uid handle d e waits v)
      ]

  -- The steps of a clean-up task.
  module _ (handle uid : ℕ) (d : Daemon Config)
      (there : user_of (Map.lookup handle d.tasks) ≡ some uid) (v : IsSound d) where
    gone : is_known (Map.lookup uid d.state.users) ≡ false
    gone = (v.tasked handle uid there).0

    -- A task of the same user in place of the old one.
    replaced-IsSound :
        (t : Task) → t.uid ≡ uid → IsSound (record d { tasks = Map.insert handle t d.tasks })
    replaced-IsSound t same = record {
      consistent = v.consistent;
      seated = v.seated;
      devices = v.devices;
      runtime = v.runtime;
      tasked =
          λ h u e. ground (arith, e, same, there, v.tasked h u, lookup-insert handle h t d.tasks);
      unused = λ h le. ground (arith, le, there, v.unused h, lookup-insert handle h t d.tasks);
    }

    removed-IsSound : IsSound (record d { tasks = Map.remove handle d.tasks })
    removed-IsSound = record {
      consistent = v.consistent;
      seated = v.seated;
      devices = v.devices;
      runtime = v.runtime;
      tasked = λ h u e. ground (arith, e, v.tasked h u, lookup-remove handle h d.tasks);
      unused = λ h le. ground (arith, le, v.unused h, lookup-remove handle h d.tasks);
    }

    pub wake-IsSound : IsSound (wake handle uid d)
    unfolding wake
    wake-IsSound = elim (Option-cases (Map.lookup uid d.state.users)) [
      | inr (user, known) ↦ absurd (ground (arith, known, gone))
      | inl e ↦ rw (wake, e) (replaced-IsSound (record { uid = uid; stage = releasing false }) refl)
    ]

    released-IsSound :
        (tasks : Map ℕ Task)
        → IsSound (record d { tasks = tasks })
        → IsSound (
            act
              (release_runtime_dir uid ∷ release_user_slice uid ∷ [])
              (record d { tasks = tasks }))
    unfolding holder wants_runtime_dir
    released-IsSound tasks w = record {
      consistent = w.consistent;
      seated = w.seated;
      devices = λ k. ground (
        arith,
        w.devices k,
        holder-append k d.actions (release_runtime_dir uid ∷ release_user_slice uid ∷ []) none,
      );
      runtime = λ u known. ground (
        arith,
        known,
        gone,
        w.runtime u,
        wants_runtime_dir-append u d.actions (release_runtime_dir uid ∷ release_user_slice uid ∷ [])
            false,
      );
      tasked = w.tasked;
      unused = w.unused;
    }

    pub release-IsSound : (aborted : Bool) → IsSound (release handle uid aborted d)
    unfolding release
    release-IsSound true = released-IsSound (Map.remove handle d.tasks) removed-IsSound
    release-IsSound false =
        let t : Task = record { uid = uid; stage = forgetting } in
        released-IsSound (Map.insert handle t d.tasks) (replaced-IsSound t refl)

    pub forget-IsSound : IsSound (forget handle uid d)
    unfolding forget
    forget-IsSound = record {
      consistent = with_pending d.state _ v.consistent;
      seated = v.seated;
      devices = v.devices;
      runtime = v.runtime;
      tasked = λ h u e. ground (
        arith,
        e,
        there,
        v.tasked h u,
        v.tasked handle uid,
        lookup-remove handle h d.tasks,
        lookup-remove uid u d.state.pending_user_cleanups,
      );
      unused = λ h le. ground (arith, le, v.unused h, lookup-remove handle h d.tasks);
    }
