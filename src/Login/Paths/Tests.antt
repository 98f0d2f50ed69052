-- ===== src/Login/Paths/Tests.antt =====
-- Paths of a session and of two seats.
use dynamod.Common.{◌≡◌, refl, arith, [], ◌∷◌}
use dynamod.Common.Text.{codes}
use dynamod.Login.Paths.{
  hex_digit, escape_all, systemd_escape, is_plain, escape_others, escape_object_path_component,
  session_object_path,
}
use dynamod.Login.Paths.Injective.{session_object_path-injective}

program : Unit {0}
unfolding hex_digit escape_all systemd_escape is_plain escape_others escape_object_path_component
    session_object_path
program = tt

first_session : session_object_path (codes "1") ≡ codes "/org/freedesktop/login1/session/_31"
unfolding program
first_session = refl

-- An underscore is not escaped, so that two names have one path.
seats_collide :
    escape_object_path_component (codes "a-") ≡ escape_object_path_component (codes "a_2d")
unfolding program
seats_collide = refl

session_object_path-injective_example : codes "c1" ≡ b'c' ∷ b'1' ∷ []
session_object_path-injective_example =
    session_object_path-injective (codes "c1") (b'c' ∷ b'1' ∷ []) (omega arith, (omega arith, tt))
      (omega arith, (omega arith, tt)) refl
