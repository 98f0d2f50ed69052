-- ===== src/Login/Power/Keys/Tests.antt =====
-- A key for suspending, while an inhibitor blocks sleep and while it only delays a shutdown.
use dynamod.Common.{
  ltb, ◌≡◌, ◌≤◌, ◌+◌, ◌⊎◌, refl, String, true, false, [], ◌∷◌, ◌++◌, some, arith, string_discrete,
  if◌then◌else◌,
}
use mathlib.Core.Option
use dynamod.Protocol.Message
use dynamod.Login.Power.{
  Outside, Power, prepare_for_shutdown, request_shutdown, without, split, same_text, any_same,
  holds, any_holds, now, wait_within, wait_for_delay_inhibitors, execute_shutdown,
  has_block_inhibitor,
}
use dynamod.Login.Power.Keys.{poweroff, suspend, run_action}
use dynamod.Login.Power.Keys.Handshake.{
  is_blocked, handshake, run_action-calls, wait_for_delay_inhibitors-ends,
}

-- The inhibitor goes at moment 9.
abbrev outside : Outside
outside = record { clock = λ n. n; is_released = λ n i. ltb 8 n; succeeds = λ n. true }

abbrev held : String → String → Power
held mode what = record {
  inhibitors =
      record {
        what = what;
        who = "backup";
        why = "it runs";
        mode = mode;
        uid = 1000;
        pid = 70;
        cookie = 1;
        pipe_read = 11;
      }
      ∷ [];
  moment = 0;
  calls = [];
}

program : Unit {0}
unfolding run_action without split same_text any_same holds any_holds wait_within
    wait_for_delay_inhibitors execute_shutdown has_block_inhibitor string_discrete
program = tt

blocks_sleep : is_blocked outside suspend (held "block" "shutdown:sleep") ≡ true
unfolding program
blocks_sleep = refl

delays_shutdown :
    Option.map (λ p. p.calls) (run_action outside 50 poweroff (held "delay" "shutdown"))
    ≡ some (prepare_for_shutdown true ∷ request_shutdown Message.poweroff ∷ [])
unfolding program
delays_shutdown = refl

run_action-calls_example :
    (q : Power) × (run_action outside 50 suspend (held "block" "shutdown:sleep") ≡ some q)
    × (q.calls
        ≡ []
          ++ (if is_blocked outside suspend (held "block" "shutdown:sleep")
              then []
              else handshake suspend))
run_action-calls_example =
    run_action-calls outside 50 suspend (held "block" "shutdown:sleep") (λ n. omega arith)

wait_for_delay_inhibitors-ends_example :
    (q : Power) × (wait_for_delay_inhibitors outside "sleep" 50 (held "delay" "sleep") ≡ some q)
    × (q.calls ≡ [])
    × ((any_holds "delay" "sleep" q.inhibitors ≡ false)
        ⊎ (now outside (held "delay" "sleep") + 50 ≤ now outside q))
wait_for_delay_inhibitors-ends_example =
    wait_for_delay_inhibitors-ends outside "sleep" 50 (held "delay" "sleep") (λ n. omega arith)
