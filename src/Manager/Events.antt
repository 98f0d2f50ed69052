-- ===== src/Manager/Events.antt =====
-- rust/dynamod-svmgr/src/main.rs: the main event loop, one turn after another. What arrives in a turn,
-- on the control socket and from init, is an argument, and so is whether the heartbeat can be
-- sent. Between two turns nothing of the state is kept but `EventLoop`.
pub mod Turns
mod Tests
use dynamod.Common.{
  ℕ, suc, ◌-◌, ◌*◌, leb, String, Bool, true, false, List, [], ◌∷◌, Option, none, some,
  if◌then◌else◌,
}
use mathlib.Core.Option
use dynamod.Cgroup.Monitor
use dynamod.Config.Service.{ServiceDef}
use dynamod.Control.Connection.{Connection}
use dynamod.Control.Connection
use dynamod.Dependency.Graph.{DependencyGraph}
use dynamod.Process.Readiness.{second}
use dynamod.Protocol.Framing.{Serializer}
use dynamod.Protocol.Message.{MessageBody, ShutdownKind, shutdown_signal}
use dynamod.Supervisor.Tree.{SupervisorTree}
use dynamod.Manager.World.{Manager, tick, call, sleep, instant}
use dynamod.Manager.Exits.{reap_and_handle_exits}
use dynamod.Manager.Requests.{Outcome, running, leaving, dispatch_control_actions}
use dynamod.Manager.Stopping.{Answers, execute_shutdown}

-- `connected`: there is a channel to init.
pub record EventLoop : Type 0 where
  pub manager : Manager
  pub connected : Bool
  pub last_heartbeat : ℕ
  pub heartbeat_failures : ℕ

-- What arrives in a turn.
pub record Arrivals : Type 0 where
  pub connections : List Connection
  pub messages : List MessageBody
  pub heartbeat_sent : Bool

-- After a turn the loop goes on, or the process exits, with what it asks of init, or the loop ends
-- since the connection to init is lost.
pub data Turned : Type 0 where
  goes_on lost : EventLoop → Turned
  exits : Option ShutdownKind → Manager → Turned

abbrev pub max_heartbeat_failures : ℕ
max_heartbeat_failures = 3

abbrev pub noted : ℕ → EventLoop → EventLoop
noted failures l = record {
  manager = tick l.manager;
  connected = l.connected;
  last_heartbeat = instant l.manager;
  heartbeat_failures = failures;
}

abbrev pub slept : EventLoop → EventLoop
slept l = record l { manager = call (sleep 100) l.manager }

-- `heartbeat_failures += 1`, and the end of the loop at the third in a row.
abbrev pub missed : ℕ → EventLoop → Turned
missed failures l =
    if leb max_heartbeat_failures failures
    then lost (record l { heartbeat_failures = failures })
    else goes_on (slept (noted failures l))

abbrev pub beat : Bool → Bool → EventLoop → Turned
beat true true l = goes_on (slept (noted 0 l))
beat true false l = missed (suc l.heartbeat_failures) l
beat false sent l = goes_on (slept (noted l.heartbeat_failures l))

-- "Periodic heartbeat".
unfoldable pub heartbeat : Bool → EventLoop → Turned
heartbeat sent l =
    if leb (5 * second) (instant l.manager - l.last_heartbeat)
    then beat l.connected sent (record l { manager = tick l.manager })
    else goes_on (slept (record l { manager = tick l.manager }))

-- "Poll cgroup events", which are logged.
unfoldable pub poll_cgroups : EventLoop → EventLoop
poll_cgroups l =
    let m = l.manager in
    record l {
      manager =
          tick (record m { cgroup_monitor = (Monitor.poll (m.files m.moment) m.cgroup_monitor).0 });
    }

abbrev pub is_shutdown_signal : MessageBody → Bool
is_shutdown_signal (shutdown_signal signal) = true
is_shutdown_signal _ = false

-- "Check for messages from init"; `rest` is the rest of the turn.
unfoldable pub heed :
    Answers → DependencyGraph → (EventLoop → Turned) → List MessageBody → EventLoop → Option Turned
heed answers g rest [] l = some (rest l)
heed answers g rest (body ∷ messages) l =
    let later = heed answers g rest messages l in
    elim (is_shutdown_signal body) [
      | true ↦ Option.map (exits none) (execute_shutdown answers g l.manager)
      | false ↦ later
    ]

abbrev pub from_init : Bool → List MessageBody → List MessageBody
from_init true messages = messages
from_init false messages = []

abbrev pub asked_of_init : Bool → ShutdownKind → Option ShutdownKind
asked_of_init true kind = some kind
asked_of_init false kind = none

-- The part of the turn after the control socket's requests.
unfoldable pub after_requests :
    Answers → DependencyGraph → Arrivals → EventLoop → Outcome → Option Turned
unfolding heartbeat poll_cgroups heed
after_requests answers g a l (running m) =
    heed answers g (λ l'. heartbeat a.heartbeat_sent (poll_cgroups l'))
      (from_init l.connected a.messages) (record l { manager = m })
after_requests answers g a l (leaving kind m) =
    Option.map (exits (asked_of_init l.connected kind)) (execute_shutdown answers g m)

-- Enough for a restart to wait for five seconds.
abbrev pub restart_fuel : ℕ
restart_fuel = suc (5 * second)

unfoldable pub event_turn :
    Serializer
    → (SupervisorTree → String)
    → Answers
    → DependencyGraph
    → (ℕ → Option (List ServiceDef))
    → Arrivals
    → EventLoop
    → Option Turned
unfolding after_requests
event_turn s format_tree answers g load a l = Option.bind (reap_and_handle_exits l.manager) (λ m.
    Option.bind
      (dispatch_control_actions restart_fuel load
        (Connection.poll s format_tree a.connections m.tree) m)
      (after_requests answers g a l))
