-- ===== src/Common/Text.antt =====
-- Text as the list of its characters' numbers, and what Rust's `str` does with it.
use Prim.Native.Char.{code}
use Prim.Native.Nat.{ℕ, ◌+◌, ◌-◌, ◌*◌, ◌^◌, ◌≤◌, ◌<◌}
use Prim.Native.String.{String}
use mathlib.Core.Path.{◌≡◌, refl}
use mathlib.Core.Bool.{Bool, true, false, ◌&&◌, ◌||◌}
use mathlib.Core.List.{List, [], ◌∷◌, ◌++◌}
use mathlib.Core.Option
use mathlib.Core.Option.{Option, none, some}
use native.Mathlib.Omega.{arith}
use dynamod.Common.Tests.{ltb, leb, ◌==◌, if◌then◌else◌}

abbrev pub codes : String → List ℕ
codes String.[] = []
codes (String.◌∷◌ c s) = code c ∷ codes s

-- `char::is_whitespace`
unfoldable pub is_whitespace : ℕ → Bool
is_whitespace c =
    (leb 9 c && leb c 13)
    || (c == 32
        || (c == 133
            || (c == 160
                || (c == 5760
                    || ((leb 8192 c && leb c 8202)
                        || (c == 8232
                            || (c == 8233 || (c == 8239 || (c == 8287 || c == 12288)))))))))

pub trim_start : List ℕ → List ℕ
trim_start [] = []
trim_start (c ∷ s) = if is_whitespace c then trim_start s else c ∷ s

pub trim_end : List ℕ → List ℕ
trim_end [] = []
trim_end (c ∷ s) = elim (trim_end s) [
  | [] ↦ if is_whitespace c then [] else c ∷ []
  | d ∷ rest ↦ c ∷ d ∷ rest
]

unfoldable pub trim : List ℕ → List ℕ
unfolding trim_start trim_end is_whitespace
trim s = trim_end (trim_start s)

-- `s.strip_suffix(c)`
unfoldable pub strip_suffix : ℕ → List ℕ → Option (List ℕ)
strip_suffix c [] = none
strip_suffix c (d ∷ []) = if d == c then some [] else none
strip_suffix c (d ∷ e ∷ s) = Option.map (λ rest. d ∷ rest) (strip_suffix c (e ∷ s))

abbrev pub is_digit : ℕ → Bool
is_digit c = leb b'0' c && leb c b'9'

abbrev pub u64_limit : ℕ
u64_limit = 2 ^ 64

-- The loop of `u64::from_str`; `none` for another character and beyond the limit.
pub parse_digits : List ℕ → ℕ → Option ℕ
parse_digits [] acc = some acc
parse_digits (c ∷ s) acc =
    let next = acc * 10 + (c - b'0') in
    let rest = parse_digits s next in if is_digit c && ltb next u64_limit then rest else none

-- `s.parse::<u64>().ok()`: digits, one at least, and a plus in front perhaps.
unfoldable pub parse_u64 : List ℕ → Option ℕ
unfolding parse_digits
parse_u64 [] = none
parse_u64 (c ∷ []) = parse_digits (c ∷ []) 0
parse_u64 (c ∷ d ∷ s) = if c == b'+' then parse_digits (d ∷ s) 0 else parse_digits (c ∷ d ∷ s) 0

-- The number that digits write, after `acc`.
abbrev pub value_from : ℕ → List ℕ → ℕ
value_from acc [] = acc
value_from acc (c ∷ s) = value_from (acc * 10 + (c - b'0')) s

abbrev pub AllDigits : List ℕ → Type 0
AllDigits [] = Unit {0}
AllDigits (c ∷ s) = (is_digit c ≡ true) × AllDigits s

value_from_grows : (acc : ℕ) (s : List ℕ) → acc ≤ value_from acc s
value_from_grows acc [] = omega arith
value_from_grows acc (c ∷ s) = omega (arith, value_from_grows (acc * 10 + (c - b'0')) s)

parse_digits-value_from :
    (s : List ℕ) (acc : ℕ)
    → AllDigits s
    → value_from acc s < u64_limit
    → parse_digits s acc ≡ some (value_from acc s)
unfolding parse_digits
parse_digits-value_from [] acc all fits = refl
parse_digits-value_from (c ∷ s) acc all fits = ground (
  arith,
  all.0,
  fits,
  value_from_grows (acc * 10 + (c - b'0')) s,
  parse_digits-value_from s (acc * 10 + (c - b'0')) all.1 fits,
)

-- Digits parse to the number that they write, if it fits into 64 bits.
pub parse_u64-value_from :
    (c : ℕ) (s : List ℕ)
    → AllDigits (c ∷ s)
    → value_from 0 (c ∷ s) < u64_limit
    → parse_u64 (c ∷ s) ≡ some (value_from 0 (c ∷ s))
unfolding parse_u64
parse_u64-value_from c [] all fits = parse_digits-value_from (c ∷ []) 0 all fits
parse_u64-value_from c (d ∷ s) all fits =
    ground (arith, all.0, parse_digits-value_from (c ∷ d ∷ s) 0 all fits)

-- A text that ends in a character that is no blank keeps its end, and loses just that character.
trim_end-push :
    (u : ℕ) (s : List ℕ) → is_whitespace u ≡ false → trim_end (s ++ u ∷ []) ≡ s ++ u ∷ []
unfolding trim_end
trim_end-push u [] h = ground (arith, h)
trim_end-push u (c ∷ []) h = ground (arith, h)
trim_end-push u (c ∷ d ∷ s) h = ground (arith, trim_end-push u (d ∷ s) h)

pub strip_suffix-push : (u : ℕ) (s : List ℕ) → strip_suffix u (s ++ u ∷ []) ≡ some s
unfolding strip_suffix
strip_suffix-push u [] = ground arith
strip_suffix-push u (c ∷ []) = ground arith
strip_suffix-push u (c ∷ d ∷ s) = ground (arith, strip_suffix-push u (d ∷ s))

pub strip_suffix-push_ne :
    (u v : ℕ) (s : List ℕ) → (v == u) ≡ false → strip_suffix u (s ++ v ∷ []) ≡ none
unfolding strip_suffix
strip_suffix-push_ne u v [] h = ground (arith, h)
strip_suffix-push_ne u v (c ∷ []) h = ground (arith, h)
strip_suffix-push_ne u v (c ∷ d ∷ s) h = ground (arith, strip_suffix-push_ne u v (d ∷ s) h)

digit_is_black : (c : ℕ) → is_digit c ≡ true → is_whitespace c ≡ false
unfolding is_whitespace
digit_is_black c h = ground (arith, h)

-- Digits and one more character that is no blank are not trimmed.
pub trim_digits :
    (c : ℕ) (s : List ℕ) (u : ℕ)
    → is_digit c ≡ true
    → is_whitespace u ≡ false
    → trim (c ∷ s ++ u ∷ []) ≡ c ∷ s ++ u ∷ []
unfolding trim trim_start
trim_digits c s u h black = ground (arith, digit_is_black c h, trim_end-push u (c ∷ s) black)

abbrev pub is_prefix : List ℕ → List ℕ → Bool
is_prefix [] s = true
is_prefix (c ∷ p) [] = false
is_prefix (c ∷ p) (d ∷ s) = (c == d) && is_prefix p s

-- `s.contains(p)`
pub contains_text : List ℕ → List ℕ → Bool
contains_text p [] = is_prefix p []
contains_text p (c ∷ s) = is_prefix p (c ∷ s) || contains_text p s
