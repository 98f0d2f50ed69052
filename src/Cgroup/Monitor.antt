-- ===== src/Cgroup/Monitor.antt =====
-- rust/dynamod-svmgr/src/cgroup/monitor.rs: out-of-memory kills and memory pressure. What the
-- kernel's files say at one moment is an argument, and a path is a text.
pub mod Kills
use dynamod.Common.{
  ℕ, ◌-◌, String, List, [], ◌∷◌, ◌++◌, Option, none, some, ltb, if◌then◌else◌, unwrap_or,
  string_key,
}
use dynamod.Common.Map
use dynamod.Common.Map.{Map}

pub data CgroupEvent : Type 0 where
  oom_kill : (service_name : String) (count : ℕ) → CgroupEvent
  memory_high : (service_name : String) (current_bytes : ℕ) → CgroupEvent

pub record CgroupMonitor : Type 0 where
  pub watched : Map String String
  pub last_oom_count : Map String ℕ

-- What `read_oom_kill_count`, `read_memory_current` and `read_memory_high` return.
pub record Readings : Type 0 where
  pub oom_kill_count : String → ℕ
  pub memory_current : String → Option ℕ
  pub memory_high_mark : String → Option ℕ

abbrev pub new : CgroupMonitor
new = record { watched = []; last_oom_count = [] }

unfoldable pub watch : Readings → String → String → CgroupMonitor → CgroupMonitor
watch r service_name cgroup_path m = record {
  watched = Map.insert service_name cgroup_path m.watched;
  last_oom_count = Map.insert service_name (r.oom_kill_count cgroup_path) m.last_oom_count;
}

unfoldable pub unwatch : String → CgroupMonitor → CgroupMonitor
unwatch service_name m = record {
  watched = Map.remove service_name m.watched;
  last_oom_count = Map.remove service_name m.last_oom_count;
}

abbrev pressure : String → Option ℕ → Option ℕ → List CgroupEvent
pressure name (some current) (some high) =
    if ltb high current then memory_high name current ∷ [] else []
pressure name _ _ = []

abbrev new_kills : String → ℕ → ℕ → List CgroupEvent
new_kills name current last = if ltb last current then oom_kill name (current - last) ∷ [] else []

-- The loop over the watched cgroups, over the counts of the last poll.
poll_each : Readings → Map String String → Map String ℕ → Map String ℕ × List CgroupEvent
poll_each r [] last = (last, [])
poll_each r ((name, path) ∷ watched) last =
    let current = r.oom_kill_count path in
    let before = unwrap_or (Map.lookup name last) 0 in
    let (last', events) = poll_each r watched (Map.insert name current last) in
    (
      last',
      new_kills name current before
          ++ (pressure name (r.memory_current path) (r.memory_high_mark path) ++ events),
    )

unfoldable pub poll : Readings → CgroupMonitor → CgroupMonitor × List CgroupEvent
unfolding poll_each
poll r m =
    let (last, events) = poll_each r m.watched m.last_oom_count in
    (record m { last_oom_count = last }, events)
