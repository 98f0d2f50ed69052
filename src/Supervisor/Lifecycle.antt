-- ===== src/Supervisor/Lifecycle.antt =====
-- rust/dynamod-svmgr/src/supervisor/lifecycle.rs: the states of a service, and how a process ended.
use dynamod.Common.{ℕ, String, Bool, true, false, Option, none, some, ◌==◌}

pub data ServiceState : Type 0 where
  stopped starting running : ServiceState
  stopping : (deadline : Option ℕ) → ServiceState
  failed : (exit_code signal : Option ℕ) → ServiceState
  abandoned : ServiceState

unfoldable pub is_running : ServiceState → Bool
is_running running = true
is_running starting = true
is_running _ = false

unfoldable pub is_stopped : ServiceState → Bool
is_stopped stopped = true
is_stopped (failed _ _) = true
is_stopped abandoned = true
is_stopped _ = false

unfoldable pub display_name : ServiceState → String
display_name stopped = "stopped"
display_name starting = "starting"
display_name running = "running"
display_name (stopping _) = "stopping"
display_name (failed _ _) = "failed"
display_name abandoned = "abandoned"

pub record ExitInfo : Type 0 where
  pub exit_code : Option ℕ
  pub signal : Option ℕ

abbrev equals_zero : Option ℕ → Bool
equals_zero none = false
equals_zero (some n) = n == 0

unfoldable pub is_normal : ExitInfo → Bool
is_normal e = equals_zero e.exit_code

-- The state in which a child that is not restarted is left.
unfoldable pub exit_state : ExitInfo → ServiceState
unfolding is_normal
exit_state e = elim (is_normal e) [ true ↦ stopped | false ↦ failed e.exit_code e.signal ]
