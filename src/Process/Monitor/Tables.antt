-- ===== src/Process/Monitor/Tables.antt =====
-- The table from process ids to services and the one back are inverse to each other.
use dynamod.Common.{
  ℕ, String, ◌≡◌, List, [], ◌∷◌, Option, none, some, arith, Option-cases, inl, inr, string_key,
  nat_key,
}
use dynamod.Common.Map
use dynamod.Common.Map.{lookup-insert, lookup-remove}
use dynamod.Manager.World.{
  WaitStatus, exited, signaled, still_alive, no_children, interrupted, other,
}
use dynamod.Process.Monitor
use dynamod.Process.Monitor.{
  ProcessMonitor, register, unregister, service_for_pid, pid_for_service, forget, reap_all,
  without_pid,
}

pub record IsInverse (m : ProcessMonitor) : Type 0 where
  pub to_pid :
      (pid : ℕ) (name : String)
      → service_for_pid pid m ≡ some name
      → pid_for_service name m ≡ some pid
  pub to_service :
      (pid : ℕ) (name : String)
      → pid_for_service name m ≡ some pid
      → service_for_pid pid m ≡ some name

register-IsInverse :
    (name : String) (pid : ℕ) (fd : Option ℕ) (m : ProcessMonitor)
    → service_for_pid pid m ≡ none
    → pid_for_service name m ≡ none
    → IsInverse m
    → IsInverse (register name pid fd m)
unfolding register
register-IsInverse name pid fd m fresh idle v = record {
  to_pid = λ p n h. ground (
    arith,
    h,
    fresh,
    idle,
    v.to_pid p n,
    lookup-insert pid p name m.pid_to_service,
    lookup-insert name n pid m.service_to_pid,
  );
  to_service = λ p n h. ground (
    arith,
    h,
    fresh,
    idle,
    v.to_service p n,
    lookup-insert pid p name m.pid_to_service,
    lookup-insert name n pid m.service_to_pid,
  );
}

unregister-IsInverse :
    (name : String) (m : ProcessMonitor) → IsInverse m → IsInverse (unregister name m)
unfolding unregister
unregister-IsInverse name m v = elim (Option-cases (pid_for_service name m)) [
  | inl idle ↦ record {
    to_pid = λ p n h. ground (arith, idle, h, v.to_pid p n, lookup-remove name n m.service_to_pid);
    to_service =
        λ p n h. ground (arith, idle, h, v.to_service p n, lookup-remove name n m.service_to_pid);
  }
  | inr (pid, runs) ↦ record {
    to_pid = λ p n h. ground (
      arith,
      runs,
      h,
      v.to_pid p n,
      v.to_pid pid name,
      v.to_service pid name,
      lookup-remove name n m.service_to_pid,
      lookup-remove pid p m.pid_to_service,
    );
    to_service = λ p n h. ground (
      arith,
      runs,
      h,
      v.to_service p n,
      v.to_service pid name,
      v.to_pid p n,
      v.to_pid p name,
      lookup-remove name n m.service_to_pid,
      lookup-remove pid p m.pid_to_service,
    );
  }
]

forget-IsInverse :
    (known : Option String) (m : ProcessMonitor) → IsInverse m → IsInverse (forget known m)
forget-IsInverse none m v = v
forget-IsInverse (some name) m v = unregister-IsInverse name m v

reap_all-IsInverse :
    (ws : List WaitStatus) (m : ProcessMonitor) → IsInverse m → IsInverse ((reap_all ws m).0)
unfolding reap_all
reap_all-IsInverse [] m v = v
reap_all-IsInverse (exited pid code ∷ ws) m v =
    reap_all-IsInverse ws (forget (service_for_pid pid m) m)
      (forget-IsInverse (service_for_pid pid m) m v)
reap_all-IsInverse (signaled pid sig ∷ ws) m v =
    reap_all-IsInverse ws (forget (service_for_pid pid m) m)
      (forget-IsInverse (service_for_pid pid m) m v)
reap_all-IsInverse (still_alive ∷ ws) m v = v
reap_all-IsInverse (no_children ∷ ws) m v = v
reap_all-IsInverse (interrupted ∷ ws) m v = v
reap_all-IsInverse (other ∷ ws) m v = v

-- A process is registered under an id that is not registered, for a service that is not running.
pub data Tracked : ProcessMonitor → Type 0 where
  at_first : Tracked Monitor.new
  registered :
      {m : ProcessMonitor} (name : String) (pid : ℕ) (fd : Option ℕ)
      → service_for_pid pid m ≡ none
      → pid_for_service name m ≡ none
      → Tracked m
      → Tracked (register name pid fd m)
  dropped : {m : ProcessMonitor} (name : String) → Tracked m → Tracked (unregister name m)
  reaped : {m : ProcessMonitor} (ws : List WaitStatus) → Tracked m → Tracked ((reap_all ws m).0)

-- As long as processes are registered under ids that are not registered, for services that are not
-- running, the two tables stay inverse to each other, whatever ends and whatever is unregistered.
pub tables-IsInverse : {m : ProcessMonitor} → Tracked m → IsInverse m
unfolding Map.lookup
tables-IsInverse at_first = record {
  to_pid = λ p n h. absurd (cc);
  to_service = λ p n h. absurd (cc);
}
tables-IsInverse (registered name pid fd fresh idle before) =
    register-IsInverse name pid fd _ fresh idle (tables-IsInverse before)
tables-IsInverse (dropped name before) = unregister-IsInverse name _ (tables-IsInverse before)
tables-IsInverse (reaped ws before) = reap_all-IsInverse ws _ (tables-IsInverse before)
