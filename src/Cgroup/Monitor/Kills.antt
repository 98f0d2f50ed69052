-- ===== src/Cgroup/Monitor/Kills.antt =====
-- No out-of-memory kill is missed and none is reported twice.
use dynamod.Common.{
  ℕ, ◌+◌, ◌-◌, ◌≤◌, String, ◌≡◌, refl, false, List, [], ◌∷◌, ◌++◌, Option, none, some, arith, ite,
  unwrap_or, string_discrete, string_key,
}
use dynamod.Common.Map
use dynamod.Common.Map.{Map, lookup-insert}
use dynamod.Common.Set
use dynamod.Common.Set.{Distinct}
use dynamod.Cgroup.Monitor.{
  CgroupEvent, oom_kill, memory_high, CgroupMonitor, Readings, poll, poll_each, new_kills, pressure,
}

-- The kills that events report for a service.
abbrev pub kills : String → List CgroupEvent → ℕ
kills s [] = 0
kills s (oom_kill name count ∷ events) =
    ite (string_discrete name s) (count + kills s events) (kills s events)
kills s (memory_high name current ∷ events) = kills s events

abbrev pub names : Map String String → List String
names [] = []
names ((name, path) ∷ watched) = name ∷ names watched

kills-append :
    (s : String) (xs ys : List CgroupEvent) → kills s (xs ++ ys) ≡ kills s xs + kills s ys
kills-append s [] ys = omega arith
kills-append s (oom_kill name count ∷ xs) ys = ground (arith, kills-append s xs ys)
kills-append s (memory_high name current ∷ xs) ys = ground (arith, kills-append s xs ys)

kills-new_kills :
    (s name : String) (current last : ℕ)
    → kills s (new_kills name current last) ≡ ite (string_discrete name s) (current - last) 0
kills-new_kills s name current last = ground arith

kills-pressure :
    (s name : String) (current high : Option ℕ) → kills s (pressure name current high) ≡ 0
kills-pressure s name none none = refl
kills-pressure s name none (some high) = refl
kills-pressure s name (some current) none = refl
kills-pressure s name (some current) (some high) = ground arith

-- What a poll reports and what it remembers for a service that is not among `watched`.
poll_each-other :
    (r : Readings) (watched : Map String String) (last : Map String ℕ) (s : String)
    → Set.contains s (names watched) ≡ false
    → (kills s (poll_each r watched last).1 ≡ 0)
      × (Map.lookup s (poll_each r watched last).0 ≡ Map.lookup s last)
unfolding poll_each Set.contains
poll_each-other r [] last s out = (refl, refl)
poll_each-other r ((name, path) ∷ watched) last s out =
    let current = r.oom_kill_count path in
    let rest = poll_each r watched (Map.insert name current last) in
    ground (
      arith,
      out,
      poll_each-other r watched (Map.insert name current last) s,
      lookup-insert name s current last,
      kills-append s (new_kills name current (unwrap_or (Map.lookup name last) 0))
          (pressure name (r.memory_current path) (r.memory_high_mark path) ++ rest.1),
      kills-append s (pressure name (r.memory_current path) (r.memory_high_mark path)) rest.1,
      kills-new_kills s name current (unwrap_or (Map.lookup name last) 0),
      kills-pressure s name (r.memory_current path) (r.memory_high_mark path),
    )

poll_each-watched :
    (r : Readings) (watched : Map String String) (last : Map String ℕ) (s path : String)
    → Distinct (names watched)
    → Map.lookup s watched ≡ some path
    → (kills s (poll_each r watched last).1
        ≡ r.oom_kill_count path - unwrap_or (Map.lookup s last) 0)
      × (Map.lookup s (poll_each r watched last).0 ≡ some (r.oom_kill_count path))
unfolding poll_each Map.lookup
poll_each-watched r [] last s path once there = absurd (cc)
poll_each-watched r ((name, p) ∷ watched) last s path once there =
    let current = r.oom_kill_count p in
    let later = Map.insert name current last in
    let rest = poll_each r watched later in
    ground (
      arith,
      there,
      once,
      poll_each-other r watched later s,
      poll_each-watched r watched later s path once.1,
      lookup-insert name s current last,
      kills-append s (new_kills name current (unwrap_or (Map.lookup name last) 0))
          (pressure name (r.memory_current p) (r.memory_high_mark p) ++ rest.1),
      kills-append s (pressure name (r.memory_current p) (r.memory_high_mark p)) rest.1,
      kills-new_kills s name current (unwrap_or (Map.lookup name last) 0),
      kills-pressure s name (r.memory_current p) (r.memory_high_mark p),
    )

-- Polls one after the other, each with what the kernel's files say then.
unfoldable pub poll_all : List Readings → CgroupMonitor → CgroupMonitor × List CgroupEvent
poll_all [] m = (m, [])
poll_all (r ∷ rs) m =
    let (m', events) = poll r m in let (m'', later) = poll_all rs m' in (m'', events ++ later)

-- The count that the kernel shows never falls.
unfoldable pub Rising : String → ℕ → List Readings → Type 0
Rising path n [] = Unit {0}
Rising path n (r ∷ rs) = (n ≤ r.oom_kill_count path) × Rising path (r.oom_kill_count path) rs

abbrev pub last_count : String → ℕ → List Readings → ℕ
last_count path n [] = n
last_count path n (r ∷ rs) = last_count path (r.oom_kill_count path) rs

le-last_count :
    (path : String) (n : ℕ) (rs : List Readings) → Rising path n rs → n ≤ last_count path n rs
unfolding Rising
le-last_count path n [] up = omega arith
le-last_count path n (r ∷ rs) up = ground (arith, up, le-last_count path (r.oom_kill_count path) rs)

-- Every out-of-memory kill is reported once: while a service is watched, and the kernel's count for
-- its cgroup never falls, the kills that any number of polls report for it are those that the count
-- shows at the last poll over those that the monitor knew before the first.
pub poll_all-kills :
    (rs : List Readings) (m : CgroupMonitor) (s path : String) (n : ℕ)
    → Distinct (names m.watched)
    → Map.lookup s m.watched ≡ some path
    → Map.lookup s m.last_oom_count ≡ some n
    → Rising path n rs
    → kills s (poll_all rs m).1 ≡ last_count path n rs - n
unfolding poll_all poll Rising
poll_all-kills [] m s path n once there known up = omega arith
poll_all-kills (r ∷ rs) m s path n once there known up =
    let now = poll_each-watched r m.watched m.last_oom_count s path once there in
    let m' = record m { last_oom_count = (poll_each r m.watched m.last_oom_count).0 } in
    ground (
      arith,
      now,
      known,
      up,
      le-last_count path (r.oom_kill_count path) rs,
      poll_all-kills rs m' s path (r.oom_kill_count path) once there now.1 up.1,
      kills-append s (poll_each r m.watched m.last_oom_count).1 (poll_all rs m').1,
    )
