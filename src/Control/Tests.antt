-- ===== src/Control/Tests.antt =====
-- Requests to a small tree, and the theorem at one of them.
use dynamod.Common.{String, ◌≡◌, refl, true, [], none, string_discrete, string_key}
use dynamod.Common.Map
use dynamod.Config.Sample.{service}
use dynamod.Config.Supervisor.{one_for_one}
use dynamod.Protocol.Message.{ack, error, service_info, start_service, service_status, heartbeat}
use dynamod.Supervisor.Intensity
use dynamod.Supervisor.Lifecycle.{display_name}
use dynamod.Supervisor.Tree.{
  SupervisorTree, Result, ok, err, new, add_worker, get_worker, all_workers, worker_for_pid,
}
use dynamod.Control.{handle_request, start_worker}
use dynamod.Control.Answers.{handle_request-action, is_known}

abbrev root_only : SupervisorTree
root_only = new "root" one_for_one (Intensity.new 1 60)

abbrev tree_or : SupervisorTree → Result SupervisorTree → SupervisorTree
tree_or d (ok t) = t
tree_or d (err e) = d

abbrev with_a : SupervisorTree
with_a = tree_or root_only (add_worker root_only (service "a" [] []) "root")

abbrev shown : SupervisorTree → String
shown t = "tree"

-- What a run of the code computes with.
program : Unit {0}
unfolding new Intensity.new add_worker get_worker all_workers worker_for_pid display_name
    handle_request Map.lookup Map.insert Map.adjust string_discrete
program = tt

start_unknown : handle_request shown (start_service "b") with_a ≡ (error "unknown service: b", none)
unfolding program
start_unknown = refl

status_of_a :
    (handle_request shown (service_status "a") with_a).0 ≡ service_info "a" "stopped" none "root"
unfolding program
status_of_a = refl

heartbeat_is_no_command : handle_request shown heartbeat with_a ≡ (error "unknown command", none)
unfolding program
heartbeat_is_no_command = refl

handle_request-action_example :
    ((handle_request shown (start_service "a") with_a).0 ≡ ack)
    × (is_known (get_worker with_a "a") ≡ true)
unfolding program
handle_request-action_example =
    handle_request-action shown (start_service "a") with_a (start_worker "a") refl
