-- ===== src/Manager/World.antt =====
-- rust/dynamod-svmgr/src/main.rs, cgroup/hierarchy.rs: the state of the manager's process. The
-- system's answers are arbitrary: those of `waitpid` and `spawn_service` are lists that are consumed
-- (at their end nothing is left to reap, and no process can be started), the clock, the kernel's
-- files and the directories that can be made are functions of the moment. So the ends of children that
-- `waitpid` still reports are finitely many: a run in which children that are restarted end again
-- before the reaping is over, forever, is not one of the model's.
use Prim.Native.String
use dynamod.Common.{ℕ, suc, String, Bool, List, [], ◌∷◌, ◌++◌, Option, none, if◌then◌else◌, ◌==◌}
use dynamod.Common.Text.{codes}
use dynamod.Cgroup.Monitor.{CgroupMonitor, Readings}
use dynamod.Shutdown.{Signal}
use dynamod.Supervisor.Tree.{SupervisorTree}

pub record CgroupHierarchy : Type 0 where
  pub root : String

abbrev join_to : List ℕ → String → String → String
join_to (c ∷ cs) root name = if c == b'/' then name else String.◌++◌ root (String.◌++◌ "/" name)
join_to [] root name = String.◌++◌ root "/"

-- `Path::join`, where an absolute path replaces the root.
unfoldable pub service_path : CgroupHierarchy → String → String
service_path h service_name = join_to (codes service_name) h.root service_name

-- What `waitpid` returns without waiting.
pub data WaitStatus : Type 0 where
  exited : (pid code : ℕ) → WaitStatus
  signaled : (pid sig : ℕ) → WaitStatus
  still_alive no_children interrupted other : WaitStatus

-- What `spawn_service` returns if it succeeds.
pub record Spawned : Type 0 where
  pub pid : ℕ
  pub ready_fd : Option ℕ

-- What the manager asks of the system.
pub data Call : Type 0 where
  spawn : (worker_id : String) → Call
  terminate kill : (pid : ℕ) → Call
  send : Signal → (pid : ℕ) → Call
  run : (command : List String) → Call
  sleep : (milliseconds : ℕ) → Call
  create_cgroup apply_limits remove_cgroup : (path : String) → Call
  add_process : (path : String) (pid : ℕ) → Call

pub record Manager : Type 0 where
  pub tree : SupervisorTree
  pub cgroup_hierarchy : Option CgroupHierarchy
  pub cgroup_monitor : CgroupMonitor
  pub waits : List WaitStatus
  pub spawns : List (Option Spawned)
  pub clock : ℕ → ℕ
  pub files : ℕ → Readings
  pub creatable : ℕ → String → Bool
  pub moment : ℕ
  pub calls : List Call

abbrev pub tail {ℓ} : {A : Type ℓ} → List A → List A
tail [] = []
tail (x ∷ xs) = xs

unfoldable pub tick : Manager → Manager
tick m = record m { moment = suc m.moment }

unfoldable pub call : Call → Manager → Manager
call c m = record m { moment = suc m.moment; calls = m.calls ++ c ∷ [] }

abbrev pub instant : Manager → ℕ
instant m = m.clock m.moment

abbrev first_status : List WaitStatus → WaitStatus
first_status [] = still_alive
first_status (w ∷ ws) = w

abbrev pub wait_status : Manager → WaitStatus
wait_status m = first_status m.waits

unfoldable pub waited : Manager → Manager
waited m = record m { waits = tail m.waits; moment = suc m.moment }

abbrev first_spawn : List (Option Spawned) → Option Spawned
first_spawn [] = none
first_spawn (s ∷ ss) = s

abbrev pub spawn_result : Manager → Option Spawned
spawn_result m = first_spawn m.spawns

-- `tree` after a call that changes it.
abbrev pub with_tree : SupervisorTree → Manager → Manager
with_tree tree m = record m { tree = tree }
