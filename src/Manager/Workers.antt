-- ===== src/Manager/Workers.antt =====
-- rust/dynamod-svmgr/src/main.rs: starting and stopping a worker's process.
use dynamod.Common.{ℕ, String, Bool, true, false, Option, none, some}
use dynamod.Cgroup.Monitor.{watch}
use dynamod.Config.Service.{ServiceDef, CgroupSection}
use dynamod.Supervisor.Lifecycle.{running, stopping, failed}
use dynamod.Supervisor.Tree.{NodeId, WorkerNode, get_worker, register_pid, update_worker}
use dynamod.Manager.World.{
  CgroupHierarchy, service_path, Spawned, Manager, call, spawn, terminate, create_cgroup,
  apply_limits, remove_cgroup, add_process, tail, spawn_result, with_tree,
}

-- Limits are applied if the directory was made.
abbrev pub limited : Bool → String → Manager → Manager × Option String
limited true path m = (call (apply_limits path) m, some path)
limited false path m = (m, none)

abbrev pub create :
    NodeId → Option CgroupHierarchy → Option CgroupSection → Manager → Manager × Option String
create id (some h) (some config) m =
    let path = service_path h id in
    limited (m.creatable m.moment path) path (call (create_cgroup path) m)
create id _ _ m = (m, none)

-- "Set up cgroup before spawning".
unfoldable pub setup_cgroup : NodeId → ServiceDef → Manager → Manager × Option String
setup_cgroup id def m = create id m.cgroup_hierarchy def.cgroup m

abbrev pub remove_from : Option CgroupHierarchy → NodeId → Manager → Manager
remove_from none id m = m
remove_from (some h) id m = call (remove_cgroup (service_path h id)) m

unfoldable pub remove_service_cgroup : NodeId → Manager → Manager
remove_service_cgroup id m = remove_from m.cgroup_hierarchy id m

abbrev pub enter : Option CgroupHierarchy → Option String → NodeId → ℕ → Manager → Manager
enter (some h) (some _) id pid m =
    let path = service_path h id in
    let m' = call (add_process path pid) m in
    record m' { cgroup_monitor = watch (m'.files m'.moment) id path m'.cgroup_monitor }
enter _ _ id pid m = m

-- "Move the process into its cgroup" and "start monitoring the cgroup".
unfoldable pub enter_cgroup : Option String → NodeId → ℕ → Manager → Manager
enter_cgroup cgroup_path id pid m = enter m.cgroup_hierarchy cgroup_path id pid m

abbrev pub mark_running : NodeId → Manager → Manager
mark_running id m = with_tree (update_worker id (λ w. record w { state = running }) m.tree) m

abbrev pub registered : NodeId → ℕ → Manager → Manager
registered id pid m = with_tree (register_pid id pid m.tree) m

abbrev pub mark_failed_start : NodeId → Manager → Manager
mark_failed_start id m =
    with_tree (update_worker id (λ w. record w { state = failed none none }) m.tree) m

abbrev pub popped : Manager → Manager
popped m = record m { spawns = tail m.spawns }

abbrev pub after_spawn : NodeId → Option String → Option Spawned → Manager → Manager × Option ℕ
after_spawn id cgroup_path (some spawned) m = (
  enter_cgroup cgroup_path id spawned.pid (mark_running id (registered id spawned.pid m)),
  spawned.ready_fd,
)
after_spawn id cgroup_path none m = (remove_service_cgroup id (mark_failed_start id m), none)

-- The part that runs if the worker is in the tree.
unfoldable pub start_with : NodeId → ServiceDef → Manager → Manager × Option ℕ
unfolding setup_cgroup enter_cgroup remove_service_cgroup
start_with id def m =
    let (prepared, cgroup_path) = setup_cgroup id def m in
    let asked = call (spawn id) prepared in
    after_spawn id cgroup_path (spawn_result asked) (popped asked)

-- The manager afterwards, and the descriptor on which the service reports that it is ready.
unfoldable pub start_worker : NodeId → Manager → Manager × Option ℕ
unfolding start_with
start_worker id m = elim (get_worker m.tree id) [
  | none ↦ (m, none)
  | some w ↦ start_with id w.def m
]

abbrev pub pid_in : Option WorkerNode → Option ℕ
pid_in none = none
pid_in (some w) = w.pid

abbrev pub pid_of : NodeId → Manager → Option ℕ
pid_of id m = pid_in (get_worker m.tree id)

abbrev pub mark_stopping : NodeId → Manager → Manager
mark_stopping id m = with_tree (update_worker id (λ w. record w { state = stopping none }) m.tree) m

abbrev pub terminated : NodeId → ℕ → Manager → Manager
terminated id pid m = mark_stopping id (call (terminate pid) m)

unfoldable pub stop_worker : NodeId → Manager → Manager
stop_worker id m = elim (pid_of id m) [ none ↦ m | some pid ↦ terminated id pid m ]
