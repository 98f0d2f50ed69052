-- ===== src/Log/Collector.antt =====
-- rust/dynamod-logd/src/collector.rs: what arrives at the socket and on the standard input. A text is
-- the list of its characters' numbers; `from_utf8_lossy` has been applied. The standard input is
-- the list of its lines, at whose end or first error the collector stops.
use dynamod.Common.{
  ℕ, ◌==◌, ◌≡◌, refl, false, List, [], ◌∷◌, ◌++◌, Option, none, some, arith, if◌then◌else◌,
}
use mathlib.Core.Option
use dynamod.Common.Text.{codes}

-- `split_once('\t')`
pub split_tab : List ℕ → Option (List ℕ × List ℕ)
split_tab [] = none
split_tab (c ∷ s) =
    let rest = Option.map (λ (p : List ℕ × List ℕ). (c ∷ p.0, p.1)) (split_tab s) in
    if c == 9 then some ([], s) else rest

-- The source and the message of a datagram.
unfoldable pub of_datagram : List ℕ → List ℕ × List ℕ
unfolding split_tab
of_datagram msg = elim (split_tab msg) [
  | some (src, rest) ↦ (src, rest)
  | none ↦ (codes "unknown", msg)
]

-- What `recv` returns.
pub data Received : Type 0 where
  datagram : List ℕ → Received
  interrupted failed : Received

-- What `collect_socket` appends to the storage, in order, until an error; an empty datagram is
-- passed over.
unfoldable pub collect_socket : List Received → List (List ℕ × List ℕ)
unfolding of_datagram
collect_socket [] = []
collect_socket (datagram [] ∷ rs) = collect_socket rs
collect_socket (datagram (c ∷ s) ∷ rs) = of_datagram (c ∷ s) ∷ collect_socket rs
collect_socket (interrupted ∷ rs) = collect_socket rs
collect_socket (failed ∷ rs) = []

-- What `collect_stdin` appends; `none` is a read error. Empty lines are passed over.
unfoldable pub collect_stdin : List (Option (List ℕ)) → List (List ℕ × List ℕ)
collect_stdin [] = []
collect_stdin (none ∷ ls) = []
collect_stdin (some [] ∷ ls) = collect_stdin ls
collect_stdin (some (c ∷ s) ∷ ls) = (codes "stdin", c ∷ s) ∷ collect_stdin ls

abbrev pub NoTab : List ℕ → Type 0
NoTab [] = Unit {0}
NoTab (c ∷ s) = ((c == 9) ≡ false) × NoTab s

split_tab-written : (src msg : List ℕ) → NoTab src → split_tab (src ++ 9 ∷ msg) ≡ some (src, msg)
unfolding split_tab
split_tab-written [] msg clean = refl
split_tab-written (c ∷ src) msg clean = ground (arith, clean.0, split_tab-written src msg clean.1)

-- A datagram of a source with no tab, a tab and a message is split into the two, whatever the
-- message holds.
pub of_datagram-written : (src msg : List ℕ) → NoTab src → of_datagram (src ++ 9 ∷ msg) ≡ (src, msg)
unfolding of_datagram
of_datagram-written src msg clean = rw (of_datagram, split_tab-written src msg clean) refl
