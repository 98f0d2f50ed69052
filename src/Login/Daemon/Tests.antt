-- ===== src/Login/Daemon/Tests.antt =====
-- Runs of the login daemon, and the theorem at one of them.
use dynamod.Common.{
  ℕ, ◌≡◌, refl, false, none, some, string_discrete, ℕ_discrete, string_key, nat_key,
}
use dynamod.Common.Map
use dynamod.Common.Set
use dynamod.Login.State
use dynamod.Login.Data.{SessionId}
use dynamod.Login.Daemon.{
  Daemon, Outside, CreateCall, choose_seat, cancel_cleanup, begin_session, create_session,
  schedule_cleanup, pass_on, finalize, finalize_session_removal, activate_with_acl_handover,
  run_acl_handover, wake, release, forget,
}
use dynamod.Login.Daemon.Actions.{holder, wants_runtime_dir}
use dynamod.Login.Daemon.Methods.{activate_session, terminate_session}
use dynamod.Login.Daemon.Calls.{
  started, create, activate, end_session, woken, released, forgotten, IsApart, Reach, start, next,
  reachable-IsSound,
}
use dynamod.Login.Daemon.Sound.{IsSound}

unfoldable pub program : Unit {0}
unfolding choose_seat cancel_cleanup begin_session create_session schedule_cleanup pass_on finalize
    finalize_session_removal activate_with_acl_handover run_acl_handover activate_session
    terminate_session started holder wants_runtime_dir State.create_session State.remove_session
    State.activate_session State.with_config State.create_seat0 Map.lookup Map.insert Map.remove
    Map.adjust wake release forget IsApart Set.contains Set.remove string_discrete ℕ_discrete
program = tt

-- The configuration is a number here.
abbrev pub outside : SessionId → Outside ℕ
outside id = record {
  user_info = λ u. none;
  name_of_uid = λ u. "someone";
  runtime_directory_size = λ c. "10%";
  id = id;
  now_usec = 5;
  now = 5;
}

abbrev pub call : ℕ → ℕ → CreateCall
call uid pid = record {
  uid = uid;
  pid = pid;
  service = "login";
  session_type = "";
  class = "";
  desktop = "";
  seat_id = "";
  vtnr = 1;
  tty = "tty1";
  display = "";
  remote = false;
  remote_user = "";
  remote_host = "";
}

abbrev pub one : Daemon ℕ
one = (create_session (outside "1") (call 1000 70) (started 0)).0

abbrev pub two : Daemon ℕ
two = (create_session (outside "2") (call 1001 80) one).0

abbrev switched : Daemon ℕ
switched = (activate_session "2" two).0

abbrev ended : Daemon ℕ
ended = (terminate_session "2" switched).0

first_holds : holder "seat0" two.actions none ≡ some 1000
unfolding program
first_holds = refl

second_holds : holder "seat0" switched.actions none ≡ some 1001
unfolding program
second_holds = refl

first_holds_again : holder "seat0" ended.actions none ≡ some 1000
unfolding program
first_holds_again = refl

pub two-Reach : Reach 0 two
unfolding program
two-Reach =
    next (next start (create (outside "1") (call 1000 70) (started 0) refl) (λ h e. refl))
      (create (outside "2") (call 1001 80) one refl) (λ h e. refl)

ended-Reach : Reach 0 ended
unfolding IsApart
ended-Reach = next (next two-Reach (activate "2" two) tt) (end_session "2" switched) tt

-- The clean-up of the second user, step by step.
abbrev checked : Daemon ℕ
checked = wake 0 1001 ended

abbrev removed : Daemon ℕ
removed = release 0 1001 false checked

reachable-IsSound_example : IsSound (forget 0 1001 removed)
unfolding program
reachable-IsSound_example = reachable-IsSound 0 (
    next
      (next (next ended-Reach (woken 0 1001 ended refl) tt) (released 0 1001 false checked refl) tt)
      (forgotten 0 1001 removed refl) tt)
