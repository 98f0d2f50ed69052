-- ===== src/Process/Monitor.antt =====
-- rust/dynamod-svmgr/src/process/monitor.rs: the tables of running service processes. What `waitpid`
-- returns is a list that is consumed; the descriptors that are closed are returned.
pub mod Tables
mod Tests
use dynamod.Common.{ℕ, String, Bool, List, [], ◌∷◌, ◌++◌, Option, none, some, string_key, nat_key}
use dynamod.Common.Lists.{length}
use dynamod.Common.Map
use dynamod.Common.Map.{Map}
use dynamod.Manager.World.{
  WaitStatus, exited, signaled, still_alive, no_children, interrupted, other,
}

pub record ExitedChild : Type 0 where
  pub pid : ℕ
  pub exit_code : Option ℕ
  pub signal : Option ℕ

pub record ProcessMonitor : Type 0 where
  pub pid_to_service : Map ℕ String
  pub service_to_pid : Map String ℕ
  pub service_to_pidfd : Map String ℕ

abbrev pub new : ProcessMonitor
new = record { pid_to_service = []; service_to_pid = []; service_to_pidfd = [] }

abbrev pub with_pidfd : String → Option ℕ → Map String ℕ → Map String ℕ
with_pidfd name none fds = fds
with_pidfd name (some fd) fds = Map.insert name fd fds

unfoldable pub register : String → ℕ → Option ℕ → ProcessMonitor → ProcessMonitor
register service_name pid pidfd m = record {
  pid_to_service = Map.insert pid service_name m.pid_to_service;
  service_to_pid = Map.insert service_name pid m.service_to_pid;
  service_to_pidfd = with_pidfd service_name pidfd m.service_to_pidfd;
}

abbrev pub without_pid : Option ℕ → Map ℕ String → Map ℕ String
without_pid none pids = pids
without_pid (some pid) pids = Map.remove pid pids

unfoldable pub unregister : String → ProcessMonitor → ProcessMonitor
unregister service_name m = record {
  pid_to_service = without_pid (Map.lookup service_name m.service_to_pid) m.pid_to_service;
  service_to_pid = Map.remove service_name m.service_to_pid;
  service_to_pidfd = Map.remove service_name m.service_to_pidfd;
}

abbrev pub service_for_pid : ℕ → ProcessMonitor → Option String
service_for_pid pid m = Map.lookup pid m.pid_to_service

abbrev pub pid_for_service : String → ProcessMonitor → Option ℕ
pid_for_service name m = Map.lookup name m.service_to_pid

-- What an ended child is reported as, if it is known.
abbrev pub report : Option String → ExitedChild → List (String × ExitedChild)
report none child = []
report (some name) child = (name, child) ∷ []

abbrev pub forget : Option String → ProcessMonitor → ProcessMonitor
forget none m = m
forget (some name) m = unregister name m

unfoldable pub reap_all :
    List WaitStatus → ProcessMonitor → ProcessMonitor × List (String × ExitedChild)
unfolding unregister
reap_all (exited pid code ∷ ws) m =
    let known = service_for_pid pid m in
    let (m', rest) = reap_all ws (forget known m) in
    (m', report known (record { pid = pid; exit_code = some code; signal = none }) ++ rest)
reap_all (signaled pid sig ∷ ws) m =
    let known = service_for_pid pid m in
    let (m', rest) = reap_all ws (forget known m) in
    (m', report known (record { pid = pid; exit_code = none; signal = some sig }) ++ rest)
reap_all _ m = (m, [])

abbrev pub count : ProcessMonitor → ℕ
count m = length m.service_to_pid
