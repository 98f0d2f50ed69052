-- ===== src/Log/Storage/Recent.antt =====
-- What the log storage holds after any number of lines: the last entries, and a file below the limit
-- as long as it can be renamed.
use dynamod.Common.{
  Option, none, some, sym, ap, subst, ◌∙◌, ◌<◌, reverse, ℕ, zero, suc, ◌-◌, ◌≤◌, ◌<◌, String, ◌≡◌,
  refl, true, Bool-cases, inl, inr, List, [], ◌∷◌, ◌++◌, leb, arith,
}
use dynamod.Common.Lists.{length, length-append, drop, take}
use mathlib.Core.List.{append-nil, append_assoc}
use dynamod.Log.Storage.{
  recent, new, LogEntry, LogStorage, Answers, append, push, pop_front, write_line, rotate,
}

-- One call of `append`.
pub record Line : Type 0 where
  pub answers : Answers
  pub source : String
  pub message : String

abbrev pub entry : Line → LogEntry
entry l = record { timestamp = l.answers.now; source = l.source; message = l.message }

abbrev pub entries : List Line → List LogEntry
entries [] = []
entries (l ∷ ls) = entry l ∷ entries ls

unfoldable pub append_all : List Line → LogStorage → LogStorage
append_all [] s = s
append_all (l ∷ ls) s = append_all ls (append l.answers l.source l.message s)

-- The last `n` entries.
abbrev pub last_entries : ℕ → List LogEntry → List LogEntry
last_entries n es = drop (length es - n) es

length-drop : (k : ℕ) (es : List LogEntry) → length (drop k es) ≡ length es - k
unfolding drop
length-drop zero es = omega arith
length-drop (suc k) [] = omega arith
length-drop (suc k) (e ∷ es) = ground (arith, length-drop k es)

drop-append :
    (k : ℕ) (es more : List LogEntry) → k ≤ length es → drop k (es ++ more) ≡ drop k es ++ more
unfolding drop
drop-append zero es more le = refl
drop-append (suc k) [] more le = absurd (omega arith)
drop-append (suc k) (e ∷ es) more le = drop-append k es more (omega arith)

pop_front-drop : (k : ℕ) (es : List LogEntry) → pop_front (drop k es) ≡ drop (suc k) es
unfolding drop
pop_front-drop zero [] = refl
pop_front-drop zero (e ∷ es) = refl
pop_front-drop (suc k) [] = refl
pop_front-drop (suc k) (e ∷ es) = pop_front-drop k es

-- One more entry among the last ones.
push-last_entries :
    (n : ℕ) (e : LogEntry) (es : List LogEntry)
    → 0 < n
    → push n e (last_entries n es) ≡ last_entries n (es ++ e ∷ [])
push-last_entries n e es some_room = elim (Bool-cases (leb n (length es))) [
  | inl full ↦
      let step : length (es ++ e ∷ []) - n ≡ suc (length es - n) =
        ground (arith, full, length-append es (e ∷ [])) in
      ground (
        arith,
        full,
        step,
        length-drop (length es - n) es,
        pop_front-drop (length es - n) es,
        drop-append (suc (length es - n)) es (e ∷ []),
      )
  | inr room ↦ ground (
    arith,
    room,
    length-append es (e ∷ []),
    length-drop (length es - n) es,
    drop-append (length es - n) es (e ∷ []),
  )
]

write_line-memory :
    (a : Answers) (s : LogStorage)
    → ((write_line a s).recent_entries ≡ s.recent_entries)
      × ((write_line a s).max_recent ≡ s.max_recent)
unfolding write_line rotate
write_line-memory a s = ground arith

append-memory :
    (l : Line) (s : LogStorage)
    → ((append l.answers l.source l.message s).recent_entries
        ≡ push s.max_recent (entry l) s.recent_entries)
      × ((append l.answers l.source l.message s).max_recent ≡ s.max_recent)
unfolding append
append-memory l s = ground (arith, write_line-memory l.answers s)

append_all-last_entries :
    (ls : List Line) (s : LogStorage) (es : List LogEntry)
    → 0 < s.max_recent
    → s.recent_entries ≡ last_entries s.max_recent es
    → (append_all ls s).recent_entries ≡ last_entries s.max_recent (es ++ entries ls)
unfolding append_all
append_all-last_entries [] s es room held =
    held ∙ ap (last_entries s.max_recent) (sym (append-nil es))
append_all-last_entries (l ∷ ls) s es room held =
    let s' = append l.answers l.source l.message s in
    let (pushed, same) = append-memory l s in
    let held' : s'.recent_entries ≡ last_entries s'.max_recent (es ++ entry l ∷ []) = rw same (
      pushed
      ∙ (ap (push s.max_recent (entry l)) held
          ∙ push-last_entries s.max_recent (entry l) es room)) in
    append_all-last_entries ls s' (es ++ entry l ∷ []) (rw same room) held'
    ∙ (ap (λ n. last_entries n ((es ++ entry l ∷ []) ++ entries ls)) same
        ∙ ap (last_entries s.max_recent) (append_assoc es (entry l ∷ []) (entries ls)))

-- Whatever is logged, whether writes succeed or not, `recent` returns the newest entries first: of
-- the last thousand that were appended to a new storage, as many as are asked for.
pub recent-append_all :
    (size : Option ℕ) (max_size : ℕ) (ls : List Line) (count : ℕ)
    → recent count (append_all ls (new size max_size))
      ≡ take count (reverse (last_entries 1000 (entries ls)))
unfolding recent new drop
recent-append_all none max_size ls count =
    ap (λ es. take count (reverse es))
      (append_all-last_entries ls (new none max_size) [] (omega arith) refl)
recent-append_all (some size) max_size ls count =
    ap (λ es. take count (reverse es))
      (append_all-last_entries ls (new (some size) max_size) [] (omega arith) refl)

-- Every attempt to rename the file, if there is one, succeeds.
abbrev pub AllRenamed : List Line → Type 0
AllRenamed [] = Unit
AllRenamed (l ∷ ls) = (l.answers.renamed ≡ true) × AllRenamed ls

append-within :
    (l : Line) (s : LogStorage)
    → l.answers.renamed ≡ true
    → 0 < s.max_size
    → s.file_length ≡ s.current_size
    → s.file_length < s.max_size
    → let s' = append l.answers l.source l.message s in
      (s'.file_length < s.max_size)
      × (s'.file_length ≡ s'.current_size)
      × (s'.max_size ≡ s.max_size)
unfolding append write_line rotate
append-within l s renamed some_size counted small = ground arith

-- If whatever is logged the file can be renamed when it is rotated, and at first the size that is
-- counted is the length of the file and below the limit, then the length of the file on the disk
-- stays below the limit and is the size that is counted, whether writes succeed or not, and whether
-- the file can be opened again or not.
pub append_all-within :
    (ls : List Line) (s : LogStorage)
    → AllRenamed ls
    → 0 < s.max_size
    → s.file_length ≡ s.current_size
    → s.file_length < s.max_size
    → let s' = append_all ls s in (s'.file_length < s.max_size) × (s'.file_length ≡ s'.current_size)
unfolding append_all
append_all-within [] s renamed some_size counted small = (small, counted)
append_all-within (l ∷ ls) s renamed some_size counted small =
    let s' = append l.answers l.source l.message s in
    let (small', counted', same) = append-within l s renamed.0 some_size counted small in
    let (small'', counted'') =
      append_all-within ls s' renamed.1 (rw same some_size) counted' (rw same small') in
    (subst (λ n. (append_all ls s').file_length < n) same small'', counted'')
