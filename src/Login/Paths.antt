-- ===== src/Login/Paths.antt =====
-- rust/dynamod-logind/src/manager.rs: the object paths of sessions, seats and users. A text is the list
-- of its bytes.
pub mod Injective
mod Tests
use dynamod.Common.{
  ℕ, ◌+◌, ◌-◌, ◌/◌, ◌%◌, ltb, leb, ◌==◌, String, Bool, true, false, ◌&&◌, ◌||◌, List, [], ◌∷◌, ◌++◌,
  if◌then◌else◌,
}
use dynamod.Common.Text.{codes, is_digit}

-- A digit as `{:x}` writes it.
unfoldable pub hex_digit : ℕ → ℕ
hex_digit n = if ltb n 10 then b'0' + n else b'a' + (n - 10)

-- `format!("_{:02x}", b)`
abbrev pub escaped : ℕ → List ℕ
escaped b = b'_' ∷ hex_digit (b / 16) ∷ hex_digit (b % 16) ∷ []

abbrev pub or_underscore : List ℕ → List ℕ
or_underscore [] = b'_' ∷ []
or_underscore (b ∷ out) = b ∷ out

unfoldable pub escape_all : List ℕ → List ℕ
unfolding hex_digit
escape_all [] = []
escape_all (b ∷ bytes) = escaped b ++ escape_all bytes

unfoldable pub systemd_escape : List ℕ → List ℕ
unfolding escape_all
systemd_escape bytes = or_underscore (escape_all bytes)

-- `is_ascii_alphanumeric() || b == b'_'`
unfoldable pub is_plain : ℕ → Bool
is_plain b = is_digit b || ((leb b'a' b && leb b b'z') || ((leb b'A' b && leb b b'Z') || b == b'_'))

unfoldable pub escape_others : List ℕ → List ℕ
unfolding hex_digit is_plain
escape_others [] = []
escape_others (b ∷ bytes) =
    let rest = escape_others bytes in if is_plain b then b ∷ rest else escaped b ++ rest

unfoldable pub escape_object_path_component : List ℕ → List ℕ
unfolding escape_others
escape_object_path_component bytes = or_underscore (escape_others bytes)

unfoldable pub session_object_path : List ℕ → List ℕ
unfolding systemd_escape
session_object_path id = codes "/org/freedesktop/login1/session/" ++ systemd_escape id

unfoldable pub seat_object_path : List ℕ → List ℕ
unfolding escape_object_path_component
seat_object_path id = codes "/org/freedesktop/login1/seat/" ++ escape_object_path_component id
