-- ===== src/Log/Storage.antt =====
-- rust/dynamod-logd/src/storage.rs: the log file, which is rotated when it has grown too large, and
-- the entries kept in memory. What the system answers is an argument; a time is a number of seconds.
pub mod Recent
use dynamod.Common.{
  ℕ, ◌+◌, ◌/◌, ◌%◌, String, Bool, true, false, List, [], ◌∷◌, ◌++◌, Option, none, some, ltb, leb,
  reverse, if◌then◌else◌,
}
use dynamod.Common.Lists.{length, take}

pub record LogEntry : Type 0 where
  pub timestamp : ℕ
  pub source : String
  pub message : String

-- `current_file`: whether the file is open. `file_length`: the length of current.log on the disk,
-- which the code does not keep; it only counts what it has written, in `current_size`.
pub record LogStorage : Type 0 where
  pub current_file : Bool
  pub current_size : ℕ
  pub file_length : ℕ
  pub max_size : ℕ
  pub recent_entries : List LogEntry
  pub max_recent : ℕ

-- What the system answers during `append`: the time, the number of bytes written unless the write
-- fails, whether the file can be renamed, and whether the file can be opened then.
pub record Answers : Type 0 where
  pub now : ℕ
  pub bytes : Option ℕ
  pub renamed : Bool
  pub opens : Bool

-- `size`: the length of the file, if it could be opened; a file that cannot be opened is taken as empty,
-- since nothing is ever written to it.
unfoldable pub new : Option ℕ → ℕ → LogStorage
new none max_size = record {
  current_file = false;
  current_size = 0;
  file_length = 0;
  max_size = max_size;
  recent_entries = [];
  max_recent = 1000;
}
new (some size) max_size = record {
  current_file = true;
  current_size = size;
  file_length = size;
  max_size = max_size;
  recent_entries = [];
  max_recent = 1000;
}

-- The file is renamed and a new one is opened, for appending. If it cannot be renamed, which the code
-- ignores, that is the old file.
unfoldable pub rotate : Answers → LogStorage → LogStorage
rotate a s = record s {
  current_file = a.opens;
  current_size = 0;
  file_length = if a.renamed then 0 else s.file_length;
}

abbrev written : Option ℕ → LogStorage → LogStorage
written none s = s
written (some n) s = record s { current_size = s.current_size + n; file_length = s.file_length + n }

-- "Write to file" and "rotate if needed", if the file is open.
unfoldable pub write_line : Answers → LogStorage → LogStorage
unfolding rotate
write_line a s = elim s.current_file [
  | false ↦ s
  | true ↦ let s' = written a.bytes s in if leb s'.max_size s'.current_size then rotate a s' else s'
]

abbrev pub pop_front : List LogEntry → List LogEntry
pop_front [] = []
pop_front (e ∷ es) = es

abbrev pub push : ℕ → LogEntry → List LogEntry → List LogEntry
push max e es = (if leb max (length es) then pop_front es else es) ++ e ∷ []

unfoldable pub append : Answers → String → String → LogStorage → LogStorage
unfolding write_line
append a source message s =
    let s' = write_line a s in
    record s' {
      recent_entries =
          push s'.max_recent (record { timestamp = a.now; source = source; message = message })
            s'.recent_entries;
    }

-- The newest first.
unfoldable pub recent : ℕ → LogStorage → List LogEntry
unfolding take
recent count s = take count (reverse s.recent_entries)

-- Of the sorted rotated files, those that are kept.
unfoldable pub cleanup_old_logs : List String → List String
cleanup_old_logs [] = []
cleanup_old_logs (f ∷ files) =
    let rest = cleanup_old_logs files in if ltb 5 (length (f ∷ files)) then rest else f ∷ files

-- Hours, minutes and seconds of the day.
unfoldable pub humantime : ℕ → ℕ × ℕ × ℕ
humantime secs = (secs % 86400 / 3600, secs % 3600 / 60, secs % 60)
