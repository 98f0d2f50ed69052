-- ===== src/Control/Answers.antt =====
-- What the answers say of the tree.
use dynamod.Common.{String, ◌≡◌, Bool, true, false, Option, none, some, arith, string_key}
use dynamod.Protocol.Message.{
  MessageBody, ack, start_service, stop_service, restart_service, reload, shutdown,
}
use dynamod.Supervisor.Tree.{SupervisorTree, get_worker, WorkerNode}
use dynamod.Control.{
  ControlAction, start_worker, stop_worker, restart_worker, reload_configuration, shut_down,
  handle_request,
}

abbrev pub is_known : Option WorkerNode → Bool
is_known none = false
is_known (some _) = true

-- Whether what an action is about is there: a service has to be a worker of the tree.
abbrev pub concerns_known : ControlAction → SupervisorTree → Bool
concerns_known (start_worker name) t = is_known (get_worker t name)
concerns_known (stop_worker name) t = is_known (get_worker t name)
concerns_known (restart_worker name) t = is_known (get_worker t name)
concerns_known reload_configuration t = true
concerns_known (shut_down _) t = true

-- Whatever is asked, every action that the request leads to is acknowledged, a reload and a shutdown
-- too, and if the action is about a service then that service is a worker of the tree.
pub handle_request-action :
    (format_tree : SupervisorTree → String) (body : MessageBody) (t : SupervisorTree)
    (action : ControlAction)
    → (handle_request format_tree body t).1 ≡ some action
    → ((handle_request format_tree body t).0 ≡ ack) × (concerns_known action t ≡ true)
unfolding handle_request
handle_request-action format_tree (start_service n) t action h = ground (arith, h)
handle_request-action format_tree (stop_service n) t action h = ground (arith, h)
handle_request-action format_tree (restart_service n) t action h = ground (arith, h)
handle_request-action format_tree (shutdown kind) t action h = ground (arith, h)
handle_request-action format_tree reload t action h = ground (arith, h)
handle_request-action format_tree _ t action h = absurd (cc)
