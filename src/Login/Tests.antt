-- ===== src/Login/Tests.antt =====
-- Runs on a small login state, and the theorems at them.
use dynamod.Common.{
  ℕ, ◌≡◌, refl, true, false, none, some, string_discrete, ℕ_discrete, string_key, nat_key,
}
use mathlib.Core.Option
use dynamod.Common.Map
use dynamod.Common.Set
use dynamod.Login.Data.{LoginState, SessionRequest, user_online}
use dynamod.Login.State.{
  create_session, remove_session, activate_session, with_config, create_seat0, foreground,
}
use dynamod.Login.State.Consistent.{IsConsistent, is_active}
use dynamod.Login.State.Creation.{create_seat0-with_config, create_session-IsConsistent}
use dynamod.Login.State.Removal.{remove_session-IsConsistent}

abbrev request : ℕ → ℕ → SessionRequest
request uid leader = record {
  uid = uid;
  user_name = "ada";
  leader_pid = leader;
  service = "login";
  session_type = "tty";
  class = "user";
  desktop = "";
  seat_id = some "seat0";
  vtnr = 1;
  tty = some "tty1";
  display = none;
  remote = false;
  remote_user = "";
  remote_host = "";
}

-- The configuration is a number here, and so is the handle of a task.
abbrev empty : LoginState ℕ ℕ
empty = create_seat0 (with_config 0)

abbrev one : LoginState ℕ ℕ
one = create_session "1" 5 5 (request 1000 70) empty

abbrev two : LoginState ℕ ℕ
two = create_session "2" 6 6 (request 1001 80) one

-- What a run of the code computes with.
program : Unit {0}
unfolding create_session remove_session activate_session with_config create_seat0 Map.lookup
    Map.insert Map.remove Map.adjust Set.contains Set.remove string_discrete ℕ_discrete
program = tt

first_is_active : foreground (Map.lookup "seat0" two.seats) ≡ some "1"
unfolding program
first_is_active = refl

second_takes_over : is_active (Map.lookup "2" (remove_session "1" two).sessions) ≡ true
unfolding program
second_takes_over = refl

-- The state of the user whose session is switched to stays as it was.
switched_user_is_online :
    Option.map (λ u. u.state) (Map.lookup 1001 (activate_session "2" two).users) ≡ some user_online
unfolding program
switched_user_is_online = refl

one-IsConsistent : IsConsistent one
unfolding program
one-IsConsistent =
    create_session-IsConsistent "1" 5 5 (request 1000 70) empty
      (create_seat0-with_config {JoinHandle = ℕ} 0) refl

two-IsConsistent : IsConsistent two
unfolding program
two-IsConsistent = create_session-IsConsistent "2" 6 6 (request 1001 80) one one-IsConsistent refl

remove_session-IsConsistent_example : IsConsistent (remove_session "1" two)
remove_session-IsConsistent_example = remove_session-IsConsistent "1" two two-IsConsistent
