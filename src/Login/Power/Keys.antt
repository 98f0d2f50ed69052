-- ===== src/Login/Power/Keys.antt =====
-- rust/dynamod-logind/src/acpi.rs, config.rs: what is done when a button is pressed or the lid is closed.
-- An action that no inhibitor concerns has no text to look for, where the code has the empty text.
-- Whether there is external power is an argument; the code takes the machine as not docked.
pub mod Handshake
mod Tests
use dynamod.Common.{
  ℕ, suc, ◌-◌, ltb, ◌==◌, String, Bool, true, false, not, ◌&&◌, List, [], ◌∷◌, Option, none, some,
  if◌then◌else◌,
}
use mathlib.Core.Option
use dynamod.Login.Power.{
  SleepKind, Outside, Power, execute_sleep, execute_shutdown, has_block_inhibitor, later, now,
}
use dynamod.Login.Power
use dynamod.Protocol.Message
use dynamod.Protocol.Message.{ShutdownKind}

pub data HandleAction : Type 0 where
  ignore poweroff reboot halt suspend hibernate hybrid_sleep lock : HandleAction

abbrev pub inhibit_what : HandleAction → Option String
inhibit_what poweroff = some "shutdown"
inhibit_what reboot = some "shutdown"
inhibit_what halt = some "shutdown"
inhibit_what suspend = some "sleep"
inhibit_what hybrid_sleep = some "sleep"
inhibit_what hibernate = some "sleep"
inhibit_what lock = none
inhibit_what ignore = none

-- The part of the configuration that is read here; durations are in nanoseconds.
pub record Config : Type 0 where
  pub handle_power_key : HandleAction
  pub handle_suspend_key : HandleAction
  pub handle_lid_switch : HandleAction
  pub handle_lid_switch_external_power : HandleAction
  pub handle_lid_switch_docked : HandleAction
  pub holdoff_timeout : ℕ
  pub inhibit_delay_max : ℕ

pub data AcpiEvent : Type 0 where
  power_button sleep_button lid_closed lid_opened : AcpiEvent

-- `EV_KEY`, `EV_SW`, and the codes of the keys and of the switch.
abbrev pub ev_key : ℕ
ev_key = 1

abbrev pub ev_sw : ℕ
ev_sw = 5

abbrev pub key_power : ℕ
key_power = 116

abbrev pub key_sleep : ℕ
key_sleep = 142

abbrev pub sw_lid : ℕ
sw_lid = 0

-- A negative value is none of those that are looked for, and so is any other here.
unfoldable pub classify : ℕ → ℕ → ℕ → Option AcpiEvent
classify type code value =
    if (type == ev_key) && ((code == key_power) && (value == 1))
    then some power_button
    else if (type == ev_key) && ((code == key_sleep) && (value == 1))
    then some sleep_button
    else if (type == ev_sw) && ((code == sw_lid) && (value == 1))
    then some lid_closed
    else if (type == ev_sw) && ((code == sw_lid) && (value == 0))
    then some lid_opened
    else none

module _ (o : Outside) where
  abbrev pub shut_down : ℕ → ShutdownKind → Power → Option Power
  shut_down max kind p = Option.map (λ r. r.0) (execute_shutdown o max kind p)

  abbrev pub fall_asleep : ℕ → SleepKind → Power → Option Power
  fall_asleep max kind p = Option.map (λ r. r.0) (execute_sleep o max kind p)

  -- What the action itself does.
  abbrev pub perform : ℕ → HandleAction → Power → Option Power
  perform max ignore p = some p
  perform max lock p = some p
  perform max suspend p = fall_asleep max Power.suspend p
  perform max hibernate p = fall_asleep max Power.hibernate p
  perform max hybrid_sleep p = fall_asleep max Power.hybrid_sleep p
  perform max poweroff p = shut_down max Message.poweroff p
  perform max reboot p = shut_down max Message.reboot p
  perform max halt p = shut_down max Message.halt p

  abbrev pub unless_blocked : ℕ → HandleAction → Power × Bool → Option Power
  unless_blocked max action (p, true) = some p
  unless_blocked max action (p, false) = perform max action p

  abbrev pub run_on : ℕ → HandleAction → Option String → Power → Option Power
  run_on max action none p = perform max action p
  run_on max action (some what) p = unless_blocked max action (has_block_inhibitor o what p)

  unfoldable pub run_action : ℕ → HandleAction → Power → Option Power
  run_action max action p = run_on max action (inhibit_what action) p

  -- `is_docked` is false.
  abbrev pub action_for : Config → Bool → AcpiEvent → Option (HandleAction × Bool)
  action_for cfg external power_button = some (cfg.handle_power_key, false)
  action_for cfg external sleep_button = some (cfg.handle_suspend_key, false)
  action_for cfg external lid_closed =
      some (if external then cfg.handle_lid_switch_external_power else cfg.handle_lid_switch, true)
  action_for cfg external lid_opened = none

  -- The instant of the last lid event comes second.
  abbrev pub debounced : Config → HandleAction → ℕ → Power → Option (Power × ℕ)
  debounced cfg action last p =
      if ltb (now o p - last) cfg.holdoff_timeout
      then some (later p, last)
      else Option.map (λ q. (q, now o p)) (run_action cfg.inhibit_delay_max action (later p))

  abbrev pub act_on : Config → Option (HandleAction × Bool) → ℕ → Power → Option (Power × ℕ)
  act_on cfg none last p = some (p, last)
  act_on cfg (some (action, true)) last p = debounced cfg action last p
  act_on cfg (some (action, false)) last p =
      Option.map (λ q. (q, last)) (run_action cfg.inhibit_delay_max action p)

  -- One turn of `dispatch_loop`.
  unfoldable pub dispatch : Config → Bool → AcpiEvent → ℕ → Power → Option (Power × ℕ)
  unfolding run_action
  dispatch cfg external event last p = act_on cfg (action_for cfg external event) last p
