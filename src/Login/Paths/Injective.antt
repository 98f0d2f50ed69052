-- ===== src/Login/Paths/Injective.antt =====
-- Sessions have paths of their own, and the paths of seats are made of plain characters.
use dynamod.Common.{ℕ, ◌/◌, ◌%◌, ◌<◌, ◌≡◌, refl, List, [], ◌∷◌, ◌++◌, arith}
use dynamod.Common.Text.{codes}
use dynamod.Login.Paths.{hex_digit, or_underscore, escape_all, systemd_escape, session_object_path}

abbrev pub AreBytes : List ℕ → Type 0
AreBytes [] = Unit {0}
AreBytes (b ∷ bytes) = (b < 256) × AreBytes bytes

hex_digit-injective : (m n : ℕ) → m < 16 → n < 16 → hex_digit m ≡ hex_digit n → m ≡ n
unfolding hex_digit
hex_digit-injective m n small small' h = ground (arith, h, small, small')

byte-injective :
    (a b : ℕ)
    → a < 256
    → b < 256
    → hex_digit (a / 16) ≡ hex_digit (b / 16)
    → hex_digit (a % 16) ≡ hex_digit (b % 16)
    → a ≡ b
byte-injective a b small small' high low =
    let h : a / 16 ≡ b / 16 =
      hex_digit-injective (a / 16) (b / 16) (omega (arith, small)) (omega (arith, small')) high in
    let l : a % 16 ≡ b % 16 =
      hex_digit-injective (a % 16) (b % 16) (omega arith) (omega arith) low in
    omega (arith, h, l)

escape_all-injective :
    (s t : List ℕ) → AreBytes s → AreBytes t → escape_all s ≡ escape_all t → s ≡ t
unfolding escape_all
escape_all-injective [] [] v w h = refl
escape_all-injective [] (b ∷ t) v w h = absurd (cc)
escape_all-injective (a ∷ s) [] v w h = absurd (cc)
escape_all-injective (a ∷ s) (b ∷ t) v w h =
    ground (arith, h, byte-injective a b v.0 w.0, escape_all-injective s t v.1 w.1)

or_underscore-injective :
    (s t : List ℕ)
    → or_underscore (escape_all s) ≡ or_underscore (escape_all t)
    → escape_all s ≡ escape_all t
unfolding escape_all
or_underscore-injective [] [] h = refl
or_underscore-injective [] (b ∷ t) h = absurd (cc)
or_underscore-injective (a ∷ s) [] h = absurd (cc)
or_underscore-injective (a ∷ s) (b ∷ t) h = h

same_after : (xs s t : List ℕ) → xs ++ s ≡ xs ++ t → s ≡ t
same_after [] s t h = h
same_after (x ∷ xs) s t h = same_after xs s t (ground (arith, h))

-- Different session identifiers have different object paths.
pub session_object_path-injective :
    (s t : List ℕ) → AreBytes s → AreBytes t → session_object_path s ≡ session_object_path t → s ≡ t
unfolding session_object_path systemd_escape
session_object_path-injective s t v w h =
    escape_all-injective s t v w
      (or_underscore-injective s t (same_after (codes "/org/freedesktop/login1/session/") _ _ h))
