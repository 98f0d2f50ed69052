-- ===== src/Config/Duration.antt =====
-- rust/dynamod-svmgr/src/config/service.rs: durations as texts. The product is that of `u64`, which
-- wraps in a release build.
use dynamod.Common.{
  ℕ, ◌*◌, ◌%◌, ◌<◌, String, ◌≡◌, false, List, [], ◌∷◌, ◌++◌, Option, none, some, arith, ◌==◌,
  if◌then◌else◌,
}
use mathlib.Core.Option
use dynamod.Common.Text.{
  codes, trim, is_whitespace, strip_suffix, parse_u64, u64_limit, value_from, AllDigits,
  parse_u64-value_from, trim_digits, strip_suffix-push, strip_suffix-push_ne,
}

abbrev times : ℕ → Option ℕ → Option ℕ
times k = Option.map (λ n. n * k % u64_limit)

-- The tests for the suffixes, in the order of the source.
unfoldable pub parse_seconds : List ℕ → Option ℕ
parse_seconds s = elim (strip_suffix b's' s) [
  | some n ↦ parse_u64 n
  | none ↦ elim (strip_suffix b'm' s) [
    | some n ↦ times 60 (parse_u64 n)
    | none ↦ elim (strip_suffix b'h' s) [ some n ↦ times 3600 (parse_u64 n) | none ↦ parse_u64 s ]
  ]
]

unfoldable pub parse_duration_secs : String → Option ℕ
unfolding parse_seconds
parse_duration_secs s = parse_seconds (trim (codes s))

-- The seconds in a unit.
abbrev pub factor : ℕ → Option ℕ
factor u =
    if u == b's'
    then some 1
    else if u == b'm'
    then some 60
    else if u == b'h'
    then some 3600
    else none

seconds_of :
    (n : List ℕ) (u k : ℕ)
    → factor u ≡ some k
    → parse_seconds (n ++ u ∷ []) ≡ (if u == b's' then parse_u64 n else times k (parse_u64 n))
unfolding parse_seconds
seconds_of n u k unit = ground (
  arith,
  unit,
  strip_suffix-push u n,
  strip_suffix-push_ne b's' u n,
  strip_suffix-push_ne b'm' u n,
)

-- Digits and a unit are read as the number times the seconds in the unit, if the number fits into
-- 64 bits, and modulo the width of the product.
pub parse_seconds-written :
    (c : ℕ) (s : List ℕ) (u k : ℕ)
    → AllDigits (c ∷ s)
    → value_from 0 (c ∷ s) < u64_limit
    → factor u ≡ some k
    → parse_seconds (trim (c ∷ s ++ u ∷ [])) ≡ some (value_from 0 (c ∷ s) * k % u64_limit)
parse_seconds-written c s u k all fits unit =
    let black : is_whitespace u ≡ false = unfold is_whitespace in ground (arith, unit) in
    rw (trim_digits c s u all.0 black)
      (ground (arith, unit, fits, seconds_of (c ∷ s) u k unit, parse_u64-value_from c s all fits))
