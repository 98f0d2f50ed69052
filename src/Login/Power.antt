-- ===== src/Login/Power.antt =====
-- rust/dynamod-logind/src/power.rs: power actions and their handshake. The clock, whether a pipe was closed,
-- and whether a request succeeds are functions of the moment. The login state of a power action is its
-- list of inhibitors.
pub mod Keys
use dynamod.Common.{
  ℕ, zero, suc, ◌+◌, ◌-◌, leb, ◌==◌, String, Bool, true, false, not, ◌&&◌, ◌||◌, List, [], ◌∷◌,
  ◌++◌, Option, none, some, if◌then◌else◌, ite, string_discrete,
}
use mathlib.Core.Option
use dynamod.Common.Text.{codes}
use dynamod.Login.Data.{Inhibitor}
use dynamod.Protocol.Message.{ShutdownKind}

pub data SleepKind : Type 0 where
  suspend hibernate hybrid_sleep : SleepKind

abbrev pub sysfs_state : SleepKind → String
sysfs_state suspend = "mem"
sysfs_state hibernate = "disk"
sysfs_state hybrid_sleep = "disk"

-- What is asked of the bus, the kernel and the service manager.
pub data PowerCall : Type 0 where
  prepare_for_sleep prepare_for_shutdown : Bool → PowerCall
  write_state : String → PowerCall
  request_shutdown : ShutdownKind → PowerCall

pub record Outside : Type 0 where
  pub clock : ℕ → ℕ
  pub is_released : ℕ → Inhibitor → Bool
  pub succeeds : ℕ → Bool

pub record Power : Type 0 where
  pub inhibitors : List Inhibitor
  pub moment : ℕ
  pub calls : List PowerCall

-- `retain`, of those for which the test fails.
unfoldable pub without : (Inhibitor → Bool) → List Inhibitor → List Inhibitor
without test [] = []
without test (i ∷ inhibitors) =
    let rest = without test inhibitors in if test i then rest else i ∷ rest

abbrev pub onto_first : ℕ → List (List ℕ) → List (List ℕ)
onto_first c [] = (c ∷ []) ∷ []
onto_first c (part ∷ parts) = (c ∷ part) ∷ parts

-- `split(c)`
unfoldable pub split : ℕ → List ℕ → List (List ℕ)
split c [] = [] ∷ []
split c (d ∷ text) = if d == c then [] ∷ split c text else onto_first d (split c text)

unfoldable pub same_text : List ℕ → List ℕ → Bool
same_text [] [] = true
same_text (c ∷ s) (d ∷ t) = c == d && same_text s t
same_text _ _ = false

unfoldable pub any_same : List ℕ → List (List ℕ) → Bool
unfolding same_text
any_same what [] = false
any_same what (part ∷ parts) = same_text part what || any_same what parts

abbrev pub named : String → String → Bool
named a b = ite (string_discrete a b) true false

-- `i.mode == mode && i.what.split(':').any(|w| w == what)`
unfoldable pub holds : String → String → Inhibitor → Bool
unfolding split any_same
holds mode what i = named i.mode mode && any_same (codes what) (split b':' (codes i.what))

unfoldable pub any_holds : String → String → List Inhibitor → Bool
unfolding holds
any_holds mode what [] = false
any_holds mode what (i ∷ inhibitors) = holds mode what i || any_holds mode what inhibitors

abbrev pub ask : PowerCall → Power → Power
ask c p = record p { moment = suc p.moment; calls = p.calls ++ c ∷ [] }

abbrev pub later : Power → Power
later p = record p { moment = suc p.moment }

module _ (o : Outside) where
  -- "GC released inhibitors".
  abbrev pub collected : Power → Power
  collected p = record p {
    inhibitors = without (o.is_released p.moment) p.inhibitors;
    moment = suc p.moment;
  }

  abbrev pub now : Power → ℕ
  now p = o.clock p.moment

  -- "Wait for delay-inhibitors"; `none` if the fuel runs out.
  unfoldable pub wait_within : ℕ → String → ℕ → Power → Option Power
  unfolding without any_holds
  wait_within zero what deadline p = none
  wait_within (suc fuel) what deadline p =
      let q = collected p in
      let rest = wait_within fuel what deadline (later (later q)) in
      elim (any_holds "delay" what q.inhibitors) [
        | false ↦ some q
        | true ↦ elim (leb deadline (now q)) [ true ↦ some (later q) | false ↦ rest ]
      ]

  -- A turn more than there are nanoseconds in `max`.
  unfoldable pub wait_for_delay_inhibitors : String → ℕ → Power → Option Power
  unfolding wait_within
  wait_for_delay_inhibitors what max p = wait_within (suc max) what (now p + max) (later p)

  -- Whether it succeeds comes second.
  unfoldable pub execute_sleep : ℕ → SleepKind → Power → Option (Power × Bool)
  unfolding wait_for_delay_inhibitors
  execute_sleep max kind p =
      Option.map
        (λ q. (
          ask (prepare_for_sleep false) (ask (write_state (sysfs_state kind)) q),
          o.succeeds q.moment,
        ))
        (wait_for_delay_inhibitors "sleep" max (ask (prepare_for_sleep true) p))

  unfoldable pub execute_shutdown : ℕ → ShutdownKind → Power → Option (Power × Bool)
  unfolding wait_for_delay_inhibitors
  execute_shutdown max kind p =
      Option.map (λ q. (ask (request_shutdown kind) q, o.succeeds q.moment))
        (wait_for_delay_inhibitors "shutdown" max (ask (prepare_for_shutdown true) p))

  unfoldable pub has_block_inhibitor : String → Power → Power × Bool
  unfolding without any_holds
  has_block_inhibitor what p = let q = collected p in (q, any_holds "block" what q.inhibitors)
