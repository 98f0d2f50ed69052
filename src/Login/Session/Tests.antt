-- ===== src/Login/Session/Tests.antt =====
-- A compositor takes control of a session and opens a device, and another session is activated.
use dynamod.Common.{ℕ, String, ◌≡◌, refl, false, none, some, string_key}
use dynamod.Common.Map
use dynamod.Login.State.Consistent.{foreground_uid}
use dynamod.Login.Daemon.{Daemon}
use dynamod.Login.Daemon.Actions.{holder}
use dynamod.Login.Daemon.Calls.{started, create, reachable-IsSound}
use dynamod.Login.Daemon.Tests.{one, two, outside, call, program, two-Reach}
use dynamod.Login.Session.{DeviceId, Opening, activate}
use dynamod.Login.Session.Control.{control, device}
use dynamod.Login.Session.Fine.{IsFine}
use dynamod.Login.Session.Handover.{activate-keeps_devices}
use dynamod.Login.Session.Reachable.{
  Reached, at_start, by_manager, by_object, own_activate, answer, Reached-Fine,
}

abbrev name : DeviceId → String
name dev = "226:0"

abbrev opening : Opening
opening = record { device = some 9; open_error = ""; duplicate = some 10; dup_error = "" }

abbrev opened : Daemon ℕ
opened =
    answer name (device (226, 0) opening) "1" (answer name (control false (some ":1.7")) "1" one)

one-Reached : Reached 0 one
unfolding program
one-Reached = by_manager at_start (create (outside "1") (call 1000 70) (started 0) refl)

Reached-Fine_example : IsFine (activate "1" opened).state
Reached-Fine_example = Reached-Fine 0 (
    own_activate "1" (
      by_object name (device (226, 0) opening) "1"
        (by_object name (control false (some ":1.7")) "1" one-Reached)))

activate-keeps_devices_example :
    (foreground_uid
        (Map.lookup "seat0" (activate "2" two).state.seats)
        (activate "2" two).state.sessions
      ≡ some 1001)
    × (holder "seat0" (activate "2" two).actions none ≡ some 1000)
unfolding program
activate-keeps_devices_example =
    activate-keeps_devices "2" _ "seat0" 1000 two (reachable-IsSound 0 two-Reach) refl refl refl
