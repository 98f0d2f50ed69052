-- ===== src/Cgroup/Tests.antt =====
-- Polls of a small monitor.
use dynamod.Common.{ℕ, ◌≡◌, refl, List, [], ◌∷◌, none, string_discrete, string_key, arith}
use dynamod.Common.Map
use dynamod.Common.Set
use dynamod.Cgroup.Monitor.{CgroupMonitor, Readings, new, watch, oom_kill, poll}
use dynamod.Cgroup.Monitor.Kills.{kills, poll_all, poll_all-kills, Rising}

abbrev at_count : ℕ → Readings
at_count n = record {
  oom_kill_count = λ path. n;
  memory_current = λ path. none;
  memory_high_mark = λ path. none;
}

abbrev web : CgroupMonitor
web = watch (at_count 1) "web" "/web" new

abbrev counts : List Readings
counts = at_count 1 ∷ at_count 4 ∷ at_count 6 ∷ []

program : Unit {0}
unfolding watch poll poll_all Rising Map.lookup Map.insert Set.contains string_discrete
program = tt

events_of_web : (poll_all counts web).1 ≡ oom_kill "web" 3 ∷ oom_kill "web" 2 ∷ []
unfolding program
events_of_web = refl

poll_all-kills_example : kills "web" (poll_all counts web).1 ≡ 5
unfolding program
poll_all-kills_example =
    poll_all-kills counts web "web" "/web" 1 (refl, tt) refl refl
      (omega arith, (omega arith, (omega arith, tt)))
