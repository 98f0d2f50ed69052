-- ===== src/Manager/Preserved.antt =====
-- What each step of the manager keeps holds after everything it does when processes end, and that
-- comes to an end.
use dynamod.Common.{
  ℕ, String, ◌≡◌, refl, Bool, true, false, List, [], ◌∷◌, Option, none, some, ltb, Bool-cases,
  Option-cases, inl, inr,
}
use mathlib.Core.Option
use dynamod.Cgroup.Monitor.{CgroupMonitor}
use dynamod.Config.Service.{CgroupSection}
use dynamod.Supervisor.Lifecycle.{ExitInfo}
use dynamod.Supervisor.Strategy
use dynamod.Supervisor.Strategy.{StrategyAction, escalate_failure}
use dynamod.Supervisor.Tree.{NodeId, get_worker, unregister_pid, parent_of}
use dynamod.Manager.World.{
  Call, Manager, tick, call, create_cgroup, instant, waited, with_tree, spawn_result, Spawned,
  CgroupHierarchy, service_path,
}
use dynamod.Manager.Workers.{
  start_worker, stop_worker, start_with, setup_cgroup, create, limited, enter, enter_cgroup,
  remove_from, remove_service_cgroup, after_spawn, popped, registered, mark_running,
  mark_failed_start, mark_stopping, pid_of,
}
use dynamod.Manager.Exits.{
  stop_each, start_each, settle, execute_strategy_action, escalate, decided, respond, supervise,
  unregistered, note_exit, mark_ended, handle_child_exit, is_running_worker, wait_for, delay_of,
}

-- The computation returns, and `P` holds of what it returns.
abbrev pub Returns : {A : Type 0} → (A → Type 0) → Option A → Type 0
Returns {A} P o = (r : A) × (o ≡ some r) × P r

-- The steps that the manager's handling of exits is made of keep `P`.
pub record Preserved (P : Manager → Type 0) : Type 0 where
  pub ticked : (m : Manager) → P m → P (tick m)
  pub called : (c : Call) (m : Manager) → P m → P (call c m)
  pub reaped : (m : Manager) → P m → P (waited m)
  pub monitored : (c : CgroupMonitor) (m : Manager) → P m → P (record m { cgroup_monitor = c })
  pub born :
      (id : NodeId) (s : Spawned) (m : Manager)
      → spawn_result m ≡ some s
      → P m
      → P (mark_running id (registered id s.pid (popped m)))
  pub unborn : (id : NodeId) (m : Manager) → P m → P (mark_failed_start id (popped m))
  pub told : (id : NodeId) (m : Manager) → P m → P (mark_stopping id m)
  pub ended :
      (id : NodeId) (pid : ℕ) (exit : ExitInfo) (m : Manager)
      → (unregister_pid pid m.tree).1 ≡ some id
      → P m
      → P (mark_ended id exit (unregistered pid m))
  pub forgotten :
      (pid : ℕ) (m : Manager) → (unregister_pid pid m.tree).1 ≡ none → P m → P (unregistered pid m)
  pub judged :
      (supervisor id : NodeId) (exit : ExitInfo) (now : ℕ) (m : Manager)
      → P m
      → P (with_tree (Strategy.apply_strategy m.tree supervisor id exit now).0 m)

pub Returns-map :
    {A B : Type 0} {P : A → Type 0} {Q : B → Type 0} {o : Option A} (f : A → B)
    → ((a : A) → P a → Q (f a))
    → Returns P o
    → Returns Q (Option.map f o)
Returns-map f h (r, e, p) = (f r, rw e refl, h r p)

pub Returns-bind :
    {A B : Type 0} {P : A → Type 0} {Q : B → Type 0} {o : Option A} (f : A → Option B)
    → ((a : A) → P a → Returns Q (f a))
    → Returns P o
    → Returns Q (Option.bind o f)
unfolding Option.bind
Returns-bind f h (r, e, p) = let (s, e', q) = h r p in (s, rw e e', q)

module _ {P : Manager → Type 0} (keep : Preserved P) where
  removing : (id : NodeId) (m : Manager) → P m → P (remove_service_cgroup id m)
  unfolding remove_service_cgroup
  removing id m p = go m.cgroup_hierarchy
    where
      go : (h : Option CgroupHierarchy) → P (remove_from h id m)
      go none = p
      go (some h) = keep.called _ m p

  creating :
      (id : NodeId) (h : Option CgroupHierarchy) (c : Option CgroupSection) (m : Manager)
      → P m
      → P (create id h c m).0
  creating id none c m p = p
  creating id (some h) none m p = p
  creating id (some h) (some c) m p = go (m.creatable m.moment (service_path h id))
    where
      go :
          (made : Bool)
          → P (limited made (service_path h id) (call (create_cgroup (service_path h id)) m)).0
      go true = keep.called _ _ (keep.called _ m p)
      go false = keep.called _ m p

  entering :
      (id : NodeId) (pid : ℕ) (h : Option CgroupHierarchy) (path : Option String) (m : Manager)
      → P m
      → P (enter h path id pid m)
  entering id pid none path m p = p
  entering id pid (some h) none m p = p
  entering id pid (some h) (some path) m p = keep.monitored _ _ (keep.called _ m p)

  spawning :
      (id : NodeId) (path : Option String) (o : Option Spawned) (m : Manager)
      → spawn_result m ≡ o
      → P m
      → P (after_spawn id path o (popped m)).0
  unfolding enter_cgroup
  spawning id path none m e p = removing id _ (keep.unborn id m p)
  spawning id path (some s) m e p = entering id s.pid _ path _ (keep.born id s m e p)

  pub start_worker-Preserved : (id : NodeId) (m : Manager) → P m → P (start_worker id m).0
  unfolding start_worker start_with setup_cgroup
  start_worker-Preserved id m p = elim (Option-cases (get_worker m.tree id)) [
    | inl missing ↦ rw (start_worker, missing) p
    | inr (w, found) ↦
        rw (start_worker, found)
          (spawning id _ _ _ refl
            (keep.called _ _ (creating id m.cgroup_hierarchy w.def.cgroup m p)))
  ]

  pub stop_worker-Preserved : (id : NodeId) (m : Manager) → P m → P (stop_worker id m)
  unfolding stop_worker
  stop_worker-Preserved id m p = elim (Option-cases (pid_of id m)) [
    | inl idle ↦ rw (stop_worker, idle) p
    | inr (pid, busy) ↦ rw (stop_worker, busy) (keep.told id _ (keep.called _ m p))
  ]

  pub noting :
      (id : NodeId) (pid : ℕ) (exit : ExitInfo) (m : Manager)
      → (unregister_pid pid m.tree).1 ≡ some id
      → P m
      → P (note_exit id exit (unregistered pid m))
  unfolding note_exit
  noting id pid exit m known p =
      removing id _ (keep.monitored _ _ (keep.ended id pid exit m known p))

  stop_each-Preserved : (ids : List NodeId) (m : Manager) → P m → P (stop_each ids m)
  unfolding stop_each
  stop_each-Preserved [] m p = p
  stop_each-Preserved (id ∷ ids) m p =
      elim (Bool-cases (is_running_worker (get_worker m.tree id))) [
        | inl on ↦ rw on (stop_each-Preserved ids (stop_worker id m) (stop_worker-Preserved id m p))
        | inr off ↦ rw off (stop_each-Preserved ids m p)
      ]

  waiting : (id : NodeId) (m : Manager) → P m → P (wait_for (get_worker m.tree id) m)
  waiting id m p = elim (Option-cases (get_worker m.tree id)) [
    | inl missing ↦ rw missing p
    | inr (w, found) ↦ elim (Bool-cases (ltb 0 (delay_of w))) [
      | inl some_delay ↦ rw found (rw some_delay (keep.called _ m p))
      | inr no_delay ↦ rw found (rw no_delay p)
    ]
  ]

  start_each-Preserved : (ids : List NodeId) (m : Manager) → P m → P (start_each ids m)
  unfolding start_each
  start_each-Preserved [] m p = p
  start_each-Preserved (id ∷ ids) m p =
      start_each-Preserved ids _ (start_worker-Preserved id _ (waiting id m p))

  module _ (reap : Manager → Option Manager) (turn : (m : Manager) → P m → Returns P (reap m)) where
    settled : (ids : List NodeId) (m : Manager) → P m → Returns P (settle reap ids m)
    unfolding settle
    settled [] m p = (m, refl, p)
    settled (id ∷ ids) m p = turn _ (keep.called _ m p)

    executed :
        (action : StrategyAction) (m : Manager)
        → P m
        → Returns P (execute_strategy_action reap action m)
    unfolding execute_strategy_action
    executed action m p =
        Returns-map (start_each action.to_start) (start_each-Preserved action.to_start)
          (settled action.to_stop _ (stop_each-Preserved action.to_stop m p))

    escalated : (supervisor : NodeId) (m : Manager) → P m → Returns P (escalate reap supervisor m)
    unfolding escalate_failure
    escalated supervisor m p = elim (Option-cases (parent_of m.tree supervisor)) [
      | inl top ↦ rw (escalate, top) (m, refl, p)
      | inr (parent, found) ↦
          rw (escalate, found)
            (executed _ _ (keep.ticked _ (keep.judged parent supervisor _ _ m p)))
    ]

    responded :
        (supervisor id : NodeId) (exit : ExitInfo) (m : Manager)
        → P m
        → Returns P (respond reap supervisor (decided supervisor id exit m) m)
    responded supervisor id exit m p =
        let judged = keep.ticked _ (keep.judged supervisor id exit (instant m) m p) in
        elim (Bool-cases (decided supervisor id exit m).1.supervisor_failed) [
          | inl up ↦ rw (respond, up) (escalated supervisor _ judged)
          | inr on ↦ rw (respond, on) (executed _ _ judged)
        ]

    supervised :
        (id : NodeId) (exit : ExitInfo) (m : Manager) → P m → Returns P (supervise reap id exit m)
    unfolding supervise
    supervised id exit m p = elim (Option-cases (parent_of m.tree id)) [
      | inl top ↦ rw (supervise, top) (m, refl, p)
      | inr (supervisor, found) ↦ rw (supervise, found) (responded supervisor id exit m p)
    ]

    pub handle_child_exit-Returns :
        (pid : ℕ) (exit : ExitInfo) (m : Manager)
        → P m
        → Returns P (handle_child_exit reap pid exit m)
    unfolding handle_child_exit
    handle_child_exit-Returns pid exit m p = elim (Option-cases (unregister_pid pid m.tree).1) [
      | inl unknown ↦ rw (handle_child_exit, unknown) (_, refl, keep.forgotten pid m unknown p)
      | inr (id, known) ↦
          rw (handle_child_exit, known) (supervised id exit _ (noting id pid exit m known p))
    ]
