-- ===== src/Manager/Requests.antt =====
-- rust/dynamod-svmgr/src/main.rs: building the tree, and carrying out what the control socket asks
-- for. What `load_services_dir` returns at a moment is an argument (`none`: an error). Of a shutdown
-- only the decision is modelled here.
pub mod Ends
use dynamod.Common.{
  ℕ, zero, suc, ◌+◌, ◌*◌, ◌==◌, leb, String, Bool, true, false, not, ◌||◌, List, [], ◌∷◌, Option,
  none, some, if◌then◌else◌, unwrap_or, string_key, string_discrete, ite,
}
use mathlib.Core.Option
use dynamod.Common.Set
use dynamod.Config.Duration.{parse_duration_secs}
use dynamod.Config.Service.{ServiceDef}
use dynamod.Config.Supervisor.{SupervisorDef, one_for_one}
use dynamod.Control.{
  ControlAction, start_worker, stop_worker, restart_worker, reload_configuration, shut_down,
}
use dynamod.Process.Readiness.{second}
use dynamod.Protocol.Message.{ShutdownKind}
use dynamod.Supervisor.Intensity
use dynamod.Supervisor.Tree.{
  NodeId, SupervisorTree, SupervisorNode, Result, ok, err, get, add_supervisor, add_worker,
  update_supervisor, all_workers,
}
use dynamod.Supervisor.Tree
use dynamod.Manager.World.{Manager, tick, call, sleep, instant, with_tree}
use dynamod.Manager.Workers
use dynamod.Manager.Workers.{pid_of}
use dynamod.Manager.Exits.{reap_and_handle_exits}

-- Nanoseconds in `max_restart_window`, or in the default.
abbrev window : SupervisorDef → ℕ → ℕ
window def default = unwrap_or (parse_duration_secs def.restart.max_restart_window) default * second

-- "Update root's strategy from config".
abbrev pub configure_root : SupervisorDef → SupervisorNode → SupervisorNode
configure_root def root = record root {
  strategy = def.supervisor.strategy;
  intensity = Intensity.new def.restart.max_restarts (window def 600);
}

-- The tree if `r` is an error, which is logged.
abbrev pub otherwise : SupervisorTree → Result SupervisorTree → SupervisorTree
otherwise t (ok t') = t'
otherwise t (err e) = t

abbrev pub added : SupervisorDef → SupervisorTree → Result SupervisorTree
added def t =
    add_supervisor t def.supervisor.name (unwrap_or def.supervisor.parent "root")
      def.supervisor.strategy (Intensity.new def.restart.max_restarts (window def 300))

unfoldable pub add_definition : SupervisorDef → SupervisorTree → SupervisorTree
add_definition def t =
    ite (string_discrete def.supervisor.name "root")
      (update_supervisor "root" (configure_root def) t) (otherwise t (added def t))

-- "Add configured supervisors".
unfoldable pub add_definitions : List SupervisorDef → SupervisorTree → SupervisorTree
unfolding add_definition
add_definitions [] t = t
add_definitions (def ∷ defs) t = add_definitions defs (add_definition def t)

-- The parent, or the root if the tree does not have it.
unfoldable pub parent_id : ServiceDef → SupervisorTree → NodeId
parent_id def t = elim (get t def.service.supervisor) [
  | some _ ↦ def.service.supervisor
  | none ↦ "root"
]

-- "Add workers (services) to the tree".
unfoldable pub add_services : List ServiceDef → SupervisorTree → SupervisorTree
unfolding parent_id
add_services [] t = t
add_services (def ∷ defs) t = add_services defs (otherwise t (add_worker t def (parent_id def t)))

unfoldable pub build_tree : List SupervisorDef → List ServiceDef → SupervisorTree
unfolding add_definitions add_services
build_tree supervisor_defs services = add_services services (
    add_definitions supervisor_defs (Tree.new "root" one_for_one (Intensity.new 20 (600 * second))))

abbrev names : List ServiceDef → List String
names [] = []
names (def ∷ defs) = Set.insert def.service.name (names defs)

abbrev launch : ServiceDef → Result SupervisorTree → Manager → Manager
launch def (ok t) m = (Workers.start_worker def.service.name (with_tree t m)).0
launch def (err e) m = m

-- "Start new services that weren't previously loaded".
unfoldable pub add_new : List String → List ServiceDef → Manager → Manager
unfolding parent_id
add_new existing [] m = m
add_new existing (def ∷ defs) m = add_new existing defs (
    if Set.contains def.service.name existing
    then m
    else launch def (add_worker m.tree def (parent_id def m.tree)) m)

-- "Stop and remove services that no longer have config files".
unfoldable pub stop_missing : List String → List String → Manager → Manager
stop_missing loaded [] m = m
stop_missing loaded (name ∷ existing) m =
    stop_missing loaded existing
      (if Set.contains name loaded then m else Workers.stop_worker name m)

unfoldable pub reload_services : Option (List ServiceDef) → Manager → Manager
unfolding add_new stop_missing
reload_services none m = m
reload_services (some new_defs) m =
    let existing = all_workers m.tree in
    stop_missing (names new_defs) existing (add_new existing new_defs m)

abbrev pub is_pid : ℕ → Option ℕ → Bool
is_pid pid none = false
is_pid pid (some n) = n == pid

-- "`still_running`" and the deadline, after one more reaping.
abbrev pub is_gone : NodeId → ℕ → ℕ → Manager → Bool
is_gone id pid deadline m = not (is_pid pid (pid_of id m)) || leb deadline (instant m)

-- The loop that waits for the old process; `none` if the fuel runs out. A turn more than there are
-- nanoseconds to the deadline is enough.
unfoldable pub await_exit : ℕ → NodeId → ℕ → ℕ → Manager → Option Manager
await_exit zero id pid deadline m = none
await_exit (suc fuel) id pid deadline m = Option.bind (reap_and_handle_exits m) (λ reaped.
    elim (is_gone id pid deadline reaped) [
      | true ↦ some (tick reaped)
      | false ↦ await_exit fuel id pid deadline (call (sleep 50) (tick reaped))
    ])

unfoldable pub await_old : ℕ → NodeId → Option ℕ → Manager → Option Manager
unfolding await_exit
await_old fuel id none m = some m
await_old fuel id (some pid) m = await_exit fuel id pid (instant m + 5 * second) (tick m)

unfoldable pub restart : ℕ → NodeId → Manager → Option Manager
unfolding await_old
restart fuel id m =
    Option.map (λ stopped. (Workers.start_worker id stopped).0)
      (await_old fuel id (pid_of id m) (Workers.stop_worker id m))

-- The manager goes on, or shuts the system down and exits.
pub data Outcome : Type 0 where
  running : Manager → Outcome
  leaving : ShutdownKind → Manager → Outcome

unfoldable pub carry_out :
    ℕ → (ℕ → Option (List ServiceDef)) → ControlAction → Manager → Option Outcome
unfolding restart reload_services
carry_out fuel load (start_worker name) m = some (running (Workers.start_worker name m).0)
carry_out fuel load (stop_worker name) m = some (running (Workers.stop_worker name m))
carry_out fuel load (restart_worker name) m = Option.map running (restart fuel name m)
carry_out fuel load reload_configuration m =
    some (running (reload_services (load m.moment) (tick m)))
carry_out fuel load (shut_down kind) m = some (leaving kind m)

abbrev pub go_on : (Manager → Option Outcome) → Outcome → Option Outcome
go_on next (running m) = next m
go_on next (leaving kind m) = some (leaving kind m)

unfoldable pub dispatch_control_actions :
    ℕ → (ℕ → Option (List ServiceDef)) → List ControlAction → Manager → Option Outcome
unfolding carry_out
dispatch_control_actions fuel load [] m = some (running m)
dispatch_control_actions fuel load (action ∷ actions) m =
    Option.bind (carry_out fuel load action m) (go_on (dispatch_control_actions fuel load actions))
