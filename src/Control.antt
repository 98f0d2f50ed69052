-- ===== src/Control.antt =====
-- rust/dynamod-svmgr/src/ipc/control.rs: the answers to requests on the control socket.
pub mod Answers
pub mod Connection
mod Tests
use Prim.Native.String
use dynamod.Common.{ℕ, String, List, [], ◌∷◌, Option, none, some}
use mathlib.Core.Option
use dynamod.Protocol.Message.{
  ℤ, pos, negsuc, ShutdownKind, ServiceEntry, MessageBody, start_service, stop_service,
  restart_service, service_status, list_services, tree_status, reload, shutdown, get_service_by_pid,
  ack, error, service_info, service_list, tree, service_by_pid,
}
use dynamod.Supervisor.Lifecycle.{display_name}
use dynamod.Supervisor.Tree.{SupervisorTree, WorkerNode, get_worker, all_workers, worker_for_pid}

pub data ControlAction : Type 0 where
  start_worker stop_worker restart_worker : String → ControlAction
  reload_configuration : ControlAction
  shut_down : ShutdownKind → ControlAction

abbrev unknown_service : String → MessageBody
unknown_service name = error (String.◌++◌ "unknown service: " name)

-- The answer to a command for a service, and the action if it is a worker of the tree.
abbrev command : String → ControlAction → Option WorkerNode → MessageBody × Option ControlAction
command name action (some _) = (ack, some action)
command name action none = (unknown_service name, none)

abbrev status : String → Option WorkerNode → MessageBody
status name (some w) = service_info name (display_name w.state) (Option.map pos w.pid) w.parent
status name none = unknown_service name

-- `filter_map` over the names of the workers.
entries : SupervisorTree → List String → List ServiceEntry
entries t [] = []
entries t (name ∷ names) =
    let rest = entries t names in
    elim (get_worker t name) [
      | none ↦ rest
      | some w ↦
          record { name = name; status = display_name w.state; pid = Option.map pos w.pid } ∷ rest
    ]

-- The process ids that the tree knows are not negative.
abbrev worker_for : SupervisorTree → ℤ → Option String
worker_for t (pos pid) = worker_for_pid t pid
worker_for t (negsuc _) = none

-- `format_tree` writes the tree out for display.
unfoldable pub handle_request :
    (SupervisorTree → String) → MessageBody → SupervisorTree → MessageBody × Option ControlAction
unfolding entries
handle_request format_tree (start_service name) t =
    command name (start_worker name) (get_worker t name)
handle_request format_tree (stop_service name) t =
    command name (stop_worker name) (get_worker t name)
handle_request format_tree (restart_service name) t =
    command name (restart_worker name) (get_worker t name)
handle_request format_tree (service_status name) t = (status name (get_worker t name), none)
handle_request format_tree list_services t = (service_list (entries t (all_workers t)), none)
handle_request format_tree tree_status t = (tree (format_tree t), none)
handle_request format_tree (shutdown kind) t = (ack, some (shut_down kind))
handle_request format_tree reload t = (ack, some reload_configuration)
handle_request format_tree (get_service_by_pid pid) t =
    (service_by_pid (worker_for t pid) pid, none)
handle_request format_tree _ t = (error "unknown command", none)
