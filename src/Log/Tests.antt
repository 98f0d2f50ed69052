-- ===== src/Log/Tests.antt =====
-- Runs of the log storage on three lines.
use dynamod.Common.{
  ℕ, ◌<◌, ◌≡◌, refl, true, false, String, List, [], ◌∷◌, none, some, reverse, arith,
}
use dynamod.Common.Lists.{take, drop}
use dynamod.Log.Storage.{new, append, write_line, rotate, recent}
use dynamod.Log.Storage.Recent.{
  Line, entries, append_all, last_entries, recent-append_all, append_all-within,
}

abbrev line : ℕ → String → Line
line now message = record {
  answers = record { now = now; bytes = some 30; renamed = true; opens = true };
  source = "web";
  message = message;
}

abbrev lines : List Line
lines = line 1 "a" ∷ line 2 "b" ∷ line 3 "c" ∷ []

program : Unit {0}
unfolding append_all new append write_line rotate recent take drop
program = tt

-- The second line makes the file too large.
size_after : (append_all lines (new (some 0) 50)).current_size ≡ 30
unfolding program
size_after = refl

recent-append_all_example :
    recent 2 (append_all lines (new none 50)) ≡ take 2 (reverse (last_entries 1000 (entries lines)))
recent-append_all_example = recent-append_all none 50 lines 2

append_all-within_example :
    let s = append_all lines (new (some 10) 50) in
    (s.file_length < 50) × (s.file_length ≡ s.current_size)
unfolding new
append_all-within_example =
    append_all-within lines (new (some 10) 50) (refl, (refl, (refl, tt))) (omega arith) refl
      (omega arith)

-- A file that cannot be renamed keeps growing, while the count starts again.
abbrev stuck : Line
stuck = record {
  answers = record { now = 4; bytes = some 60; renamed = false; opens = true };
  source = "web";
  message = "d";
}

not_renamed :
    let s = append_all (stuck ∷ stuck ∷ []) (new (some 0) 50) in
    (s.current_size ≡ 0) × (s.file_length ≡ 120)
unfolding program
not_renamed = (refl, refl)
