-- ===== src/Process/Monitor/Tests.antt =====
-- Two processes, of which one is killed.
use dynamod.Common.{
  ◌≡◌, refl, [], ◌∷◌, none, some, string_discrete, ℕ_discrete, string_key, nat_key,
}
use dynamod.Common.Map
use dynamod.Manager.World.{signaled, exited}
use dynamod.Process.Monitor
use dynamod.Process.Monitor.{ProcessMonitor, register, unregister, reap_all}
use dynamod.Process.Monitor.Tables.{
  IsInverse, Tracked, at_first, registered, reaped, tables-IsInverse,
}

program : Unit {0}
unfolding register unregister reap_all Map.lookup Map.insert Map.remove string_discrete ℕ_discrete
program = tt

abbrev two : ProcessMonitor
two = register "b" 8 none (register "a" 7 (some 3) Monitor.new)

reports_b :
    (reap_all (exited 9 0 ∷ signaled 8 15 ∷ []) two).1
    ≡ ("b", record { pid = 8; exit_code = none; signal = some 15 }) ∷ []
unfolding program
reports_b = refl

two-Tracked : Tracked two
unfolding program
two-Tracked = registered "b" 8 none refl refl (registered "a" 7 (some 3) refl refl at_first)

tables-IsInverse_example : IsInverse (reap_all (exited 9 0 ∷ signaled 8 15 ∷ []) two).0
tables-IsInverse_example = tables-IsInverse (reaped (exited 9 0 ∷ signaled 8 15 ∷ []) two-Tracked)
