-- ===== src/Supervisor/Intensity/Window.antt =====
-- The deque against the whole history of restarts: it holds those of the last window.
use dynamod.Common.{
  ℕ, ◌-◌, ◌≤◌, ◌≡◌, refl, ap, ◌∙◌, List, [], ◌∷◌, ◌++◌, arith, ltb, if◌then◌else◌, unwrap_or, subst,
  sym,
}
use mathlib.Core.List.{append_assoc}
use mathlib.Core.Path.{◌≡⟨◌⟩◌, ◌∎}
use dynamod.Common.Lists.{length}
use dynamod.Supervisor.Intensity.{
  RestartIntensity, new, evict, checked_sub, record_restart_at, current_count,
}

-- Each instant is no earlier than the one before, the first no earlier than `from`.
abbrev pub IsChronological : ℕ → List ℕ → Type 0
IsChronological from [] = Unit {0}
IsChronological from (t ∷ ts) = (from ≤ t) × IsChronological t ts

-- The instants that are not before `cutoff`.
unfoldable pub since : ℕ → List ℕ → List ℕ
since cutoff [] = []
since cutoff (t ∷ ts) = let rest = since cutoff ts in if ltb t cutoff then rest else t ∷ rest

-- A history of restarts, the oldest first.
unfoldable pub record_all : RestartIntensity → List ℕ → RestartIntensity
record_all r [] = r
record_all r (t ∷ ts) = record_all (record_restart_at r t).0 ts

since-append : (c : ℕ) (xs ys : List ℕ) → since c (xs ++ ys) ≡ since c xs ++ since c ys
unfolding since
since-append c [] ys = refl
since-append c (x ∷ xs) ys = ground (arith, since-append c xs ys)

since-since : (c d : ℕ) (xs : List ℕ) → c ≤ d → since d (since c xs) ≡ since d xs
unfolding since
since-since c d [] h = refl
since-since c d (x ∷ xs) h = ground (arith, since-since c d xs)

since_all : (c from : ℕ) (xs : List ℕ) → IsChronological from xs → c ≤ from → since c xs ≡ xs
unfolding since
since_all c from [] s h = refl
since_all c from (x ∷ xs) s h = ground (arith, since_all c x xs s.1)

-- On a list in order, dropping from the front is dropping everywhere.
evict-eq-since : (c from : ℕ) (xs : List ℕ) → IsChronological from xs → evict c xs ≡ since c xs
unfolding evict since
evict-eq-since c from [] s = refl
evict-eq-since c from (x ∷ xs) s = ground (arith, evict-eq-since c x xs s.1, since_all c x xs s.1)

since-IsChronological :
    (c from : ℕ) (xs : List ℕ) → IsChronological from xs → IsChronological from (since c xs)
unfolding since
since-IsChronological c from [] s = s
since-IsChronological c from (x ∷ xs) s =
    ground (arith, since-IsChronological c x xs s.1, weaken from x (since c xs) s.0)
  where
    weaken : (a b : ℕ) (ys : List ℕ) → a ≤ b → IsChronological b ys → IsChronological a ys
    weaken a b [] h q = tt
    weaken a b (y ∷ ys) h q = (omega arith, q.1)

-- One restart: from the deque of a history to the deque of the longer history.
step-timestamps :
    (r : RestartIntensity) (hist : List ℕ) (c from t : ℕ)
    → r.timestamps ≡ since c hist
    → IsChronological from (hist ++ t ∷ [])
    → c ≤ t - r.window
    → r.window ≤ t
    → (record_restart_at r t).0.timestamps ≡ since (t - r.window) (hist ++ t ∷ [])
unfolding record_restart_at
step-timestamps r hist c from t e s h k =
    evict (unwrap_or (checked_sub t r.window) t) (r.timestamps ++ t ∷ [])
    ≡⟨ cc (cutoff, longer) ⟩ evict (t - r.window) (since c (hist ++ t ∷ []))
    ≡⟨ evict-eq-since (t - r.window) from _ (since-IsChronological c from _ s) ⟩
      since (t - r.window) (since c (hist ++ t ∷ []))
    ≡⟨ since-since c (t - r.window) (hist ++ t ∷ []) h ⟩ since (t - r.window) (hist ++ t ∷ []) ∎
  where
    cutoff : unwrap_or (checked_sub t r.window) t ≡ t - r.window
    cutoff = ground arith

    longer : since c (hist ++ t ∷ []) ≡ r.timestamps ++ t ∷ []
    longer = ground (arith, since-append c hist (t ∷ []), since_one)
      where
        since_one : since c (t ∷ []) ≡ t ∷ []
        since_one = since_all c t (t ∷ []) (omega arith) (omega arith)

prefix-IsChronological :
    (from : ℕ) (xs ys : List ℕ) → IsChronological from (xs ++ ys) → IsChronological from xs
prefix-IsChronological from [] ys s = tt
prefix-IsChronological from (x ∷ xs) ys s = (s.0, prefix-IsChronological x xs ys s.1)

timestamps-record_all :
    (ts : List ℕ) (r : RestartIntensity) (hist : List ℕ) (c from lo now : ℕ)
    → r.timestamps ≡ since c hist
    → IsChronological from (hist ++ (ts ++ now ∷ []))
    → IsChronological lo (ts ++ now ∷ [])
    → c ≤ lo - r.window
    → r.window ≤ lo
    → (record_restart_at (record_all r ts) now).0.timestamps
      ≡ since (now - r.window) (hist ++ (ts ++ now ∷ []))
unfolding record_all record_restart_at
timestamps-record_all [] r hist c from lo now e s later h k =
    step-timestamps r hist c from now e s (omega arith) (omega arith)
timestamps-record_all (t ∷ ts) r hist c from lo now e s later h k =
    let regrouped : (hist ++ t ∷ []) ++ (ts ++ now ∷ []) ≡ hist ++ (t ∷ (ts ++ now ∷ [])) =
      append_assoc hist (t ∷ []) (ts ++ now ∷ []) in
    let s' : IsChronological from ((hist ++ t ∷ []) ++ (ts ++ now ∷ [])) =
      subst (IsChronological from) (sym regrouped) s in
    timestamps-record_all ts (record_restart_at r t).0 (hist ++ t ∷ []) (t - r.window) from t now
      (step-timestamps r hist c from t e (prefix-IsChronological from _ _ s') (omega arith)
        (omega arith))
      s' later.1 (omega arith) (omega arith)
    ∙ ap (since (now - r.window)) regrouped

record_all-config :
    (ts : List ℕ) (r : RestartIntensity)
    → ((record_all r ts).max_restarts ≡ r.max_restarts) × ((record_all r ts).window ≡ r.window)
unfolding record_all record_restart_at
record_all-config [] r = (refl, refl)
record_all-config (t ∷ ts) r = record_all-config ts (record_restart_at r t).0

-- After any history of restarts at non-decreasing instants, none earlier than one window after
-- the clock's zero, a restart at `now` is reported as too many exactly if more than `max` of the
-- restarts, this one included, lie within the window that ends at `now`; and the counter shows
-- how many do.
pub record_restart_at-counts :
    (max window first now : ℕ) (ts : List ℕ)
    → window ≤ first
    → IsChronological first (ts ++ now ∷ [])
    → let after = record_restart_at (record_all (new max window) ts) now in
      let recent = length (since (now - window) (ts ++ now ∷ [])) in
      (after.1 ≡ ltb max recent) × (current_count after.0 ≡ recent)
unfolding record_restart_at new current_count since
record_restart_at-counts max window first now ts h s =
    let (same_max, same_window) = record_all-config ts (new max window) in
    let counted =
      ap length
        (timestamps-record_all ts (new max window) [] 0 first first now refl s s (omega arith) h) in
    let flag =
      ap (λ m. ltb m (length (record_restart_at (record_all (new max window) ts) now).0.timestamps))
        same_max in
    (flag ∙ ap (ltb max) counted, counted)
