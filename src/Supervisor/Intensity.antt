-- ===== src/Supervisor/Intensity.antt =====
-- rust/dynamod-svmgr/src/supervisor/intensity.rs: how often a supervisor may restart children.
-- An `Instant` and a `Duration` are numbers of nanoseconds, the clock's reading an argument.
pub mod Window
use dynamod.Common.{
  ℕ, ◌-◌, Bool, List, [], ◌∷◌, ◌++◌, Option, none, some, ltb, leb, if◌then◌else◌, unwrap_or,
}
use dynamod.Common.Lists.{length}

pub record RestartIntensity : Type 0 where
  pub max_restarts : ℕ
  pub window : ℕ
  -- The front of the deque is the head of the list.
  pub timestamps : List ℕ

unfoldable pub new : ℕ → ℕ → RestartIntensity
new max_restarts window = record { max_restarts = max_restarts; window = window; timestamps = [] }

-- `Instant::checked_sub`.
abbrev pub checked_sub : ℕ → ℕ → Option ℕ
checked_sub now window = if leb window now then some (now - window) else none

-- `while front < cutoff { pop_front }`
pub evict : ℕ → List ℕ → List ℕ
evict cutoff [] = []
evict cutoff (t ∷ ts) = let rest = evict cutoff ts in if ltb t cutoff then rest else t ∷ ts

unfoldable pub record_restart_at : RestartIntensity → ℕ → RestartIntensity × Bool
unfolding evict
record_restart_at r now =
    let cutoff = unwrap_or (checked_sub now r.window) now in
    let kept = evict cutoff (r.timestamps ++ now ∷ []) in
    (record r { timestamps = kept }, ltb r.max_restarts (length kept))

unfoldable pub reset : RestartIntensity → RestartIntensity
reset r = record r { timestamps = [] }

unfoldable pub current_count : RestartIntensity → ℕ
current_count r = length r.timestamps
