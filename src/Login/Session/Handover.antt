-- ===== src/Login/Session/Handover.antt =====
-- Who has the devices after a session's own object brought it to the foreground.
use dynamod.Common.{ℕ, ◌≡◌, ◌∙◌, some, none, arith, string_key}
use dynamod.Common.Map
use dynamod.Login.Data.{SessionId, SeatId, Session}
use dynamod.Login.State.Consistent.{foreground_uid}
use dynamod.Login.State.Switching.Views.{front_moved, uid_moved}
use dynamod.Login.Daemon.{Daemon}
use dynamod.Login.Daemon.Actions.{holder}
use dynamod.Login.Daemon.Sound.{IsSound}
use dynamod.Login.Session.{activate}

-- If the daemon is sound and a seat's devices are handed over to a user, then after a session on that
-- seat is activated through its own object the session is in the foreground and the devices are still
-- handed over to that user, whoever the session belongs to.
pub activate-keeps_devices :
    {Config : Type 0} (x : SessionId) (s : Session) (k : SeatId) (old : ℕ) (d : Daemon Config)
    → IsSound d
    → Map.lookup x d.state.sessions ≡ some s
    → s.seat ≡ some k
    → foreground_uid (Map.lookup k d.state.seats) d.state.sessions ≡ some old
    → let d' = activate x d in
      (foreground_uid (Map.lookup k d'.state.seats) d'.state.sessions ≡ some s.uid)
      × (holder k d'.actions none ≡ some old)
unfolding activate
activate-keeps_devices x s k old d v there on before = (
  ground (
    arith,
    there,
    on,
    front_moved x s k d.state v.consistent there on k (v.seated k x (ground (arith, there, on))),
    uid_moved x s k d.state v.consistent there on x,
  ),
  v.devices k ∙ before,
)
