-- ===== src/Manager/Events/Tests.antt =====
-- A turn of the event loop in which init asks for a shutdown, and the theorems at it.
use dynamod.Common.{true, false, [], ◌∷◌, string_key}
use dynamod.Protocol.Framing.{Serializer, err}
use dynamod.Protocol.Message.{shutdown_signal, heartbeat_ack}
use dynamod.Manager.World.{Manager, still_alive}
use dynamod.Manager.Workers.{start_worker}
use dynamod.Manager.Tests.{idle}
use dynamod.Manager.Stopping.{Answers}
use dynamod.Manager.Events.{EventLoop, Arrivals}

-- No process ends before its deadline, SIGKILL or not.
abbrev stubborn : Answers
stubborn n pid = still_alive

-- Process 7 is that of `a`.
abbrev before : Manager
before = (start_worker "a" (idle [])).0

abbrev mute : Serializer
mute = record {
  SerializeError = Unit {0};
  DeserializeError = Unit {0};
  serialize = λ m. err tt;
  from_slice = λ bytes. err tt;
}

abbrev looping : EventLoop
looping = record { manager = before; connected = true; last_heartbeat = 0; heartbeat_failures = 2 }

abbrev arrivals : Arrivals
arrivals = record {
  connections = [];
  messages = heartbeat_ack ∷ shutdown_signal "SIGTERM" ∷ [];
  heartbeat_sent = false;
}
