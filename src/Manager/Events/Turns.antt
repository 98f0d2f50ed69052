-- ===== src/Manager/Events/Turns.antt =====
-- Every turn of the event loop ends, and leaves the supervisor tree well-formed.
use dynamod.Common.{
  ℕ, suc, ◌-◌, ◌*◌, ◌<◌, ◌≤◌, if◌then◌else◌, ◌≡◌, leb, Bool, true, false, Option, some, string_key,
}
use mathlib.Core.Option
use dynamod.Cgroup.Monitor
use dynamod.Control.Connection
use dynamod.Dependency.Graph.{DependencyGraph}
use dynamod.Process.Readiness.{second}
use dynamod.Supervisor.Tree.Invariant.{IsWellFormed}
use dynamod.Manager.World.{Manager, tick}
use dynamod.Manager.Stopping.{Answers, execute_shutdown}
use dynamod.Manager.Stopping.Waits.{IsPassing}
use dynamod.Manager.Stopping.All.{EachStopped}
use dynamod.Manager.Events.{EventLoop, Turned, goes_on, lost, exits, max_heartbeat_failures, missed}

-- The tree is well-formed, time passes, and fewer than three heartbeats in a row were missed.
pub record IsLive (l : EventLoop) : Type 0 where
  pub shaped : IsWellFormed l.manager.tree
  pub passing : IsPassing l.manager
  pub fewer : l.heartbeat_failures < max_heartbeat_failures

-- A shutdown was executed that stopped every service of the graph.
pub record IsShutDown (answers : Answers) (g : DependencyGraph) (r : Manager) : Type 0 where
  pub start : Manager
  pub executed : execute_shutdown answers g start ≡ some r
  pub shaped : IsWellFormed r.tree
  pub stopped : EachStopped answers start r g.services

-- Five seconds after the last heartbeat or more.
abbrev pub is_due : (ℕ → ℕ) → ℕ → EventLoop → Bool
is_due clock n l = leb (5 * second) (clock n - l.last_heartbeat)

-- The heartbeats missed in a row when one is due: none after one that is sent.
abbrev pub missed_after : Bool → Bool → ℕ → ℕ
missed_after true true missed = 0
missed_after true false missed = suc missed
missed_after false sent missed = missed

-- The count of missed heartbeats and the time of the last one, from `l` to `l'`, when the heartbeat
-- was looked at after `decided`.
pub record Counted (clock : ℕ → ℕ) (sent : Bool) (l l' : EventLoop) : Type 0 where
  pub decided : ℕ
  pub since : l.manager.moment ≤ decided
  pub until : decided < l'.manager.moment
  pub same_channel : l'.connected ≡ l.connected
  pub failures : l'.heartbeat_failures ≡ (
      if is_due clock decided l
      then missed_after l.connected sent l.heartbeat_failures
      else l.heartbeat_failures)
  pub last :
      l'.last_heartbeat ≡ (if is_due clock decided l then clock (suc decided) else l.last_heartbeat)

-- A heartbeat was due and could not be sent, the third in a row.
pub record ThirdMissed (clock : ℕ → ℕ) (sent : Bool) (l l' : EventLoop) : Type 0 where
  pub decided : ℕ
  pub since : l.manager.moment ≤ decided
  pub due : is_due clock decided l ≡ true
  pub joined : l.connected ≡ true
  pub unsent : sent ≡ false
  pub third : suc l.heartbeat_failures ≡ max_heartbeat_failures
  pub failures : l'.heartbeat_failures ≡ max_heartbeat_failures

-- What a turn that starts with `l` leads to.
pub IsSafe : Answers → DependencyGraph → Bool → (ℕ → ℕ) → EventLoop → Turned → Type 0
IsSafe answers g sent clock l (goes_on l') = IsLive l' × Counted clock sent l l'
IsSafe answers g sent clock l (exits kind r) = IsShutDown answers g r
IsSafe answers g sent clock l (lost l') = ThirdMissed clock sent l l'

module _ (answers : Answers) (g : DependencyGraph) (l : EventLoop) (m : Manager)
    (v : IsLive (record l { manager = m })) (since : l.manager.moment ≤ m.moment) where
  abbrev ticked : EventLoop
  ticked = record l { manager = tick m }

abbrev polled : Manager → Manager
polled m = tick (record m { cgroup_monitor = (Monitor.poll (m.files m.moment) m.cgroup_monitor).0 })
