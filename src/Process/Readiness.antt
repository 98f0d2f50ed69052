-- ===== src/Process/Readiness.antt =====
-- rust/dynamod-svmgr/src/process/readiness.rs: when a service is ready. What the network, commands,
-- sockets and pipes answer at one moment is an argument; instants and durations are in nanoseconds.
-- That a check closes the pipe or removes the socket's file afterwards is left out.
use Prim.Native.String
use dynamod.Common.{
  ℕ, ◌-◌, ◌*◌, String, Bool, true, false, List, ◌∷◌, Option, none, some, ltb, unwrap_or,
  if◌then◌else◌,
}
use dynamod.Common.Text.{codes, contains_text}
use dynamod.Config.Duration.{parse_duration_secs}
use dynamod.Config.Service.{
  ReadinessSection, ReadinessType, immediate, notified, tcp_port, exec, fd,
}

pub data ReadinessResult : Type 0 where
  ready not_ready timed_out : ReadinessResult
  failed : String → ReadinessResult

pub data RunResult : Type 0 where
  succeeded unsuccessful : RunResult
  run_error : String → RunResult

pub data ReadResult : Type 0 where
  some_byte closed would_block : ReadResult
  read_error : String → ReadResult

-- `receives`: nothing, or a message, which is a text unless it is not UTF-8.
pub record Probes : Type 0 where
  pub binds : String → Bool
  pub connects : ℕ → Bool
  pub runs : List String → RunResult
  pub receives : String → Option (Option String)
  pub reads : ℕ → ReadResult

pub record ReadinessTracker : Type 0 where
  pub readiness_type : ReadinessType
  pub port : Option ℕ
  pub check_exec : Option (List String)
  pub timeout : ℕ
  pub started_at : ℕ
  pub notify_socket : Option String
  pub bound_notify : Option String
  pub ready_fd : Option ℕ

abbrev pub second : ℕ
second = 1000000000

abbrev socket_path : ReadinessType → String → Option String
socket_path notified service_name =
    some (String.◌++◌ "/run/dynamod/notify-" (String.◌++◌ service_name ".sock"))
socket_path _ service_name = none

-- The socket is known by its path.
abbrev bind : Probes → Option String → Option String
bind p none = none
bind p (some path) = if p.binds path then some path else none

unfoldable pub new : Probes → ℕ → ReadinessSection → String → ReadinessTracker
new p now config service_name =
    let notify_socket = socket_path config.readiness_type service_name in
    record {
      readiness_type = config.readiness_type;
      port = config.port;
      check_exec = config.check_exec;
      timeout = unwrap_or (parse_duration_secs config.timeout) 30 * second;
      started_at = now;
      notify_socket = notify_socket;
      bound_notify = bind p notify_socket;
      ready_fd = none;
    }

unfoldable pub set_ready_fd : ℕ → ReadinessTracker → ReadinessTracker
set_ready_fd n t = record t { ready_fd = some n }

abbrev is_immediate_type : ReadinessType → Bool
is_immediate_type immediate = true
is_immediate_type _ = false

unfoldable pub is_immediate : ReadinessTracker → Bool
is_immediate t = is_immediate_type t.readiness_type

unfoldable pub check_tcp_port : Probes → Option ℕ → ReadinessResult
check_tcp_port p none = failed "no port configured"
check_tcp_port p (some n) = if p.connects n then ready else not_ready

abbrev run_result : RunResult → ReadinessResult
run_result succeeded = ready
run_result unsuccessful = not_ready
run_result (run_error e) = failed (String.◌++◌ "check-exec error: " e)

unfoldable pub check_command : Probes → Option (List String) → ReadinessResult
check_command p (some (c ∷ cs)) = run_result (p.runs (c ∷ cs))
check_command p _ = failed "no check-exec configured"

abbrev message_result : Option (Option String) → ReadinessResult
message_result none = not_ready
message_result (some message) =
    if contains_text (codes "READY=1") (codes (unwrap_or message "")) then ready else not_ready

unfoldable pub check_notify : Probes → Option String → ReadinessResult
check_notify p none = failed "no notify socket"
check_notify p (some socket) = message_result (p.receives socket)

abbrev read_result : ReadResult → ReadinessResult
read_result some_byte = ready
read_result closed = failed "ready fd closed without signal"
read_result would_block = not_ready
read_result (read_error e) = failed (String.◌++◌ "ready fd read error: " e)

unfoldable pub check_fd : Probes → Option ℕ → ReadinessResult
check_fd p none = failed "no ready fd configured"
check_fd p (some n) = read_result (p.reads n)

unfoldable pub check_type : Probes → ReadinessTracker → ReadinessType → ReadinessResult
check_type p t immediate = ready
check_type p t tcp_port = check_tcp_port p t.port
check_type p t exec = check_command p t.check_exec
check_type p t notified = check_notify p t.bound_notify
check_type p t fd = check_fd p t.ready_fd

unfoldable pub check : Probes → ℕ → ReadinessTracker → ReadinessResult
check p now t =
    if ltb t.timeout (now - t.started_at) then timed_out else check_type p t t.readiness_type
