-- ===== src/Manager/Stopping/Ends.antt =====
-- Stopping a service ends, whatever the system answers, if time passes.
use dynamod.Common.{
  ℕ, ◌+◌, String, ◌⊎◌, ◌≡◌, refl, sym, ap, subst, ◌∙◌, Bool, true, false, List, [], ◌∷◌, Option,
  none, some, arith, inl, inr, Option-cases, string_discrete, string_key, ite,
}
use mathlib.Core.Option
use dynamod.Config.Service.{ShutdownSection}
use dynamod.Shutdown.{parse_signal}
use dynamod.Supervisor.Tree.Invariant.{IsWellFormed}
use dynamod.Supervisor.Lifecycle.{stopping, stopped}
use dynamod.Supervisor.Tree.Updates.{get_worker-update_worker}
use dynamod.Manager.Workers.{pid_in, pid_of, remove_service_cgroup, remove_from}
use dynamod.Manager.Exits.{unregistered, unwatched}
use dynamod.Manager.Shape.{IsShaped, IsShaped-updated, IsShaped-unregistered}
use dynamod.Supervisor.Tree.{
  get, NodeId, SupervisorTree, WorkerNode, get_worker, update_worker, unregister_pid,
}
use dynamod.Manager.World.{
  Manager, send, run, CgroupHierarchy, remove_cgroup, service_path, tick, call, instant,
}
use dynamod.Manager.Stopping.Signals.{
  Later, Later-refl, Later-trans, Later-tick, Later-call, Later-same, SeenOver, WasKilled,
  WasStopped, HadStopped, HadStopped-within,
}
use dynamod.Manager.Stopping.{
  Answers, escalate_kill, finalize_stop, stop_process, has_ended, timeout_of, asked_to_stop,
  run_stop_exec, mark_stopping_until, mark_stopped, stop_service_graceful,
}
use dynamod.Manager.Stopping.Waits.{
  IsPassing, IsPassing-Later, Waited, await_end-returns, Escalated, escalate_kill-returns,
}

-- What stopping a service leaves: the tree has no process id for it, all other workers are as they
-- were, and if it had a process then that was stopped.
pub record Stopped (answers : Answers) (name : NodeId) (m r : Manager) : Type 0 where
  pub no_pid : (id : NodeId) → pid_of id r ≡ ite (string_discrete name id) none (pid_of id m)
  pub shaped : IsShaped m → IsShaped r
  pub others :
      (id : NodeId)
      → ite (string_discrete name id) true false ≡ false
      → get_worker r.tree id ≡ get_worker m.tree id
  pub later : Later m r
  pub had_stopped : HadStopped answers (get_worker m.tree name) m r

tree_finalized :
    (name : NodeId) (pid : ℕ) (m : Manager)
    → (finalize_stop name pid m).tree ≡ (mark_stopped name (unregistered pid m)).tree
unfolding finalize_stop remove_service_cgroup call
tree_finalized name pid m = elim (Option-cases m.cgroup_hierarchy) [
  | inl e ↦ ground (arith, e)
  | inr (h, e) ↦ ground (arith, e)
]

Later-removed :
    (h : Option CgroupHierarchy) (name : NodeId) (m : Manager) → Later m (remove_from h name m)
Later-removed none name m = Later-refl m
Later-removed (some h) name m = Later-call (remove_cgroup (service_path h name)) m

Later-finalized : (name : NodeId) (pid : ℕ) (m : Manager) → Later m (finalize_stop name pid m)
unfolding finalize_stop remove_service_cgroup
Later-finalized name pid m =
    let marked = unwatched name (mark_stopped name (unregistered pid m)) in
    Later-trans (Later-same m marked refl refl refl)
      (Later-removed marked.cgroup_hierarchy name marked)

run_stop_exec-Later :
    (command : Option (List String)) (m : Manager)
    → ((run_stop_exec command m).tree ≡ m.tree) × Later m (run_stop_exec command m)
unfolding call
run_stop_exec-Later none m = (refl, Later-refl m)
run_stop_exec-Later (some []) m = (refl, Later-refl m)
run_stop_exec-Later (some (program ∷ args)) m = (refl, Later-call (run (program ∷ args)) m)

get_worker-unregistered :
    (pid : ℕ) (m : Manager) (id : NodeId)
    → get_worker (unregistered pid m).tree id ≡ get_worker m.tree id
unfolding unregister_pid get_worker get
get_worker-unregistered pid m id = refl

pids_finalized :
    (name : NodeId) (pid deadline : ℕ) (m : Manager) (id : NodeId)
    → pid_of id (mark_stopped name (unregistered pid (mark_stopping_until name deadline m)))
      ≡ ite (string_discrete name id) none (pid_of id m)
pids_finalized name pid deadline m id = ground (
  arith,
  get_worker-unregistered pid (mark_stopping_until name deadline m) id,
  get_worker-update_worker name id (λ w. record w { pid = none; state = stopped })
      (unregistered pid (mark_stopping_until name deadline m)).tree,
  get_worker-update_worker name id (λ w. record w { state = stopping (some deadline) }) m.tree,
)

abbrev ended_tree : NodeId → ℕ → SupervisorTree → SupervisorTree
ended_tree name pid t =
    update_worker name (λ w. record w { pid = none; state = stopped }) (unregister_pid pid t).0

IsShaped-finalized :
    (name : NodeId) (pid deadline : ℕ) (m : Manager)
    → IsShaped m
    → IsWellFormed (ended_tree name pid (mark_stopping_until name deadline m).tree)
IsShaped-finalized name pid deadline m v =
    IsShaped-updated name (λ w. record w { pid = none; state = stopped })
      (unregistered pid (mark_stopping_until name deadline m)) (λ w. (refl, refl))
      (IsShaped-unregistered pid (mark_stopping_until name deadline m) (
        IsShaped-updated name (λ w. record w { state = stopping (some deadline) }) m
          (λ w. (refl, refl)) v))

workers_finalized :
    (name : NodeId) (pid deadline : ℕ) (m : Manager) (id : NodeId)
    → ite (string_discrete name id) true false ≡ false
    → get_worker (ended_tree name pid (mark_stopping_until name deadline m).tree) id
      ≡ get_worker m.tree id
workers_finalized name pid deadline m id other = ground (
  arith,
  other,
  get_worker-unregistered pid (mark_stopping_until name deadline m) id,
  get_worker-update_worker name id (λ w. record w { pid = none; state = stopped })
      (unregistered pid (mark_stopping_until name deadline m)).tree,
  get_worker-update_worker name id (λ w. record w { state = stopping (some deadline) }) m.tree,
)

-- Whatever was done in between, if it left the tree alone.
finalized-Stopped :
    (answers : Answers) (name : NodeId) (pid deadline : ℕ) (m k : Manager)
    → k.tree ≡ (mark_stopping_until name deadline m).tree
    → Later m k
    → HadStopped answers (get_worker m.tree name) m k
    → Stopped answers name m (finalize_stop name pid k)
finalized-Stopped answers name pid deadline m k same_tree later had =
    let ends : (finalize_stop name pid k).tree
        ≡ ended_tree name pid (mark_stopping_until name deadline m).tree =
      tree_finalized name pid k ∙ ap (ended_tree name pid) same_tree in
    let last = Later-finalized name pid k in
    record {
      no_pid =
          λ id. ap (λ t. pid_in (get_worker t id)) ends ∙ pids_finalized name pid deadline m id;
      shaped = λ v. subst IsWellFormed (sym ends) (IsShaped-finalized name pid deadline m v);
      others = λ id other.
          ap (λ t. get_worker t id) ends ∙ workers_finalized name pid deadline m id other;
      later = Later-trans later last;
      had_stopped =
          HadStopped-within answers (get_worker m.tree name) m m k (finalize_stop name pid k)
            (Later-refl m) last had;
    }

-- The signal is sent by `told`, and the wait is over in `k`.
module _ (answers : Answers) (name : NodeId) (pid : ℕ) (section : ShutdownSection)
    (m : Manager) where
  abbrev ready : Manager
  ready = run_stop_exec section.stop_exec m

  abbrev told : Manager
  told = call (send (parse_signal section.stop_signal) pid) ready

  abbrev asked : Manager
  asked = asked_to_stop name pid section m

  Later-asked : Later told (tick asked)
  unfolding tick
  Later-asked =
      Later-trans (Later-tick told)
        (Later-trans (Later-same (tick told) asked refl refl refl) (Later-tick asked))

  tree_asked :
      (tick asked).tree ≡ (mark_stopping_until name (instant told + timeout_of section) m).tree
  unfolding tick call
  tree_asked =
      ap
        (λ t.
          update_worker name
            (λ w. record w { state = stopping (some (instant told + timeout_of section)) }) t)
        (run_stop_exec-Later section.stop_exec m).0

  outcome_of :
      (w : Manager) (b : Bool) (k : Manager)
      → IsPassing told
      → Waited has_ended answers pid (instant asked + timeout_of section) (tick asked) (w, b)
      → Escalated answers pid w b k
      → SeenOver has_ended answers pid ready k ⊎ WasKilled (timeout_of section) pid told k
  unfolding tick call
  outcome_of w b k passing wd es = elim wd.verdict [
    | inl (n, from, to, e) ↦ inl (n, omega (arith, from), omega (arith, to, es.later.no_sooner), e)
    | inr (again, late) ↦ inr record {
      patient = w;
      waited_for = Later-trans Later-asked wd.later;
      overdue = omega (arith, late, passing told.moment);
      killed = es.killed again;
    }
  ]

  stop_process-Stopped :
      (w : WorkerNode)
      → get_worker m.tree name ≡ some w
      → w.pid ≡ some pid
      → w.def.shutdown ≡ section
      → IsPassing m
      → (r : Manager) × (stop_process answers name pid section m ≡ some r)
        × Stopped answers name m r
  unfolding stop_process Option.bind
  stop_process-Stopped v found at of_def passing =
      let first = (run_stop_exec-Later section.stop_exec m).1 in
      let signalled =
        Later-trans first (Later-call (send (parse_signal section.stop_signal) pid) ready) in
      let passing' = IsPassing-Later signalled passing in
      let ((w, b), returns, wd) =
        await_end-returns has_ended answers pid (instant asked + timeout_of section) (tick asked)
          (IsPassing-Later Later-asked passing') in
      let (k, kills, es) =
        escalate_kill-returns answers pid w b
          (IsPassing-Later (Later-trans Later-asked wd.later) passing') in
      let after = Later-trans Later-asked (Later-trans wd.later es.later) in
      let stop : WasStopped answers section pid m k = record {
        ready = ready;
        prepared = first;
        signalled = after;
        outcome = outcome_of w b k passing' wd es;
      } in
      (
        finalize_stop name pid k,
        ap (λ o. Option.map (finalize_stop name pid) (Option.bind o (escalate_kill answers pid)))
              returns
            ∙ ap (Option.map (finalize_stop name pid)) kills,
        finalized-Stopped answers name pid (instant told + timeout_of section) m k
            (es.same_tree ∙ (wd.same_tree ∙ tree_asked)) (Later-trans signalled after)
            (had_one v found at of_def k stop),
      )
    where
      had_one :
          (v : WorkerNode)
          → get_worker m.tree name ≡ some v
          → v.pid ≡ some pid
          → v.def.shutdown ≡ section
          → (k : Manager) → WasStopped answers section pid m k
          → HadStopped answers (get_worker m.tree name) m k
      had_one v found at of_def k s = rw (found, at, of_def) s

unmoved-Stopped :
    (answers : Answers) (name : NodeId) (m : Manager)
    → pid_of name m ≡ none
    → HadStopped answers (get_worker m.tree name) m m
    → Stopped answers name m m
unmoved-Stopped answers name m idle had = record {
  no_pid = λ id. elim (string_discrete name id) [
    | yes same ↦ ground (arith, same, idle)
    | no other ↦ ground (arith, other)
  ];
  shaped = λ v. v;
  others = λ id other. refl;
  later = Later-refl m;
  had_stopped = had;
}

-- If time passes, stopping a service ends, with its process stopped if it has one.
pub stop_service_graceful-Stopped :
    (answers : Answers) (name : NodeId) (m : Manager)
    → IsPassing m
    → (r : Manager) × (stop_service_graceful answers name m ≡ some r) × Stopped answers name m r
unfolding stop_service_graceful
stop_service_graceful-Stopped answers name m passing =
    elim (Option-cases (get_worker m.tree name)) [
      | inl e ↦
          (m, ground (arith, e), unmoved-Stopped answers name m (ground (arith, e)) (rw (e) tt))
      | inr (w, e) ↦ elim (Option-cases w.pid) [
        | inl idle ↦ (
          m,
          ground (arith, e, idle),
          unmoved-Stopped answers name m (ground (arith, e, idle)) (rw (e, idle) tt),
        )
        | inr (pid, at) ↦
            let (r, returns, s) =
              stop_process-Stopped answers name pid w.def.shutdown m w e at refl passing in
            (r, ground (arith, e, at, returns), s)
      ]
    ]
