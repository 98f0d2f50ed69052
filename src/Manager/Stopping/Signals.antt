-- ===== src/Manager/Stopping/Signals.antt =====
-- What was done to stop a process: the signals that were sent to it, and what `waitpid` said of it.
use dynamod.Common.{
  ℕ, ◌+◌, ◌≤◌, ◌≡◌, refl, ap, ◌∙◌, Bool, true, List, [], ◌∷◌, ◌++◌, Option, none, some, arith, ◌⊎◌,
  inl, inr,
}
use mathlib.Core.List.{append-nil, append_assoc}
use dynamod.Config.Service.{ShutdownSection}
use dynamod.Shutdown.{parse_signal}
use dynamod.Supervisor.Tree.{WorkerNode}
use dynamod.Manager.World.{Call, WaitStatus, Manager, kill, send, tick, call, instant, waited}
use dynamod.Manager.Stopping.{Answers, has_ended, timeout_of}

-- `r` comes after `m`: more may have been asked of the system.
pub record Later (m r : Manager) : Type 0 where
  pub same_clock : r.clock ≡ m.clock
  pub more : List Call
  pub called : r.calls ≡ m.calls ++ more
  pub no_sooner : m.moment ≤ r.moment

pub Later-refl : (m : Manager) → Later m m
Later-refl m = record {
  same_clock = refl;
  more = [];
  called = ground (arith, append-nil m.calls);
  no_sooner = omega arith;
}

pub Later-trans : {m k r : Manager} → Later m k → Later k r → Later m r
Later-trans {m} {k} {r} p q = record {
  same_clock = q.same_clock ∙ p.same_clock;
  more = p.more ++ q.more;
  called = q.called ∙ (ap (λ l. l ++ q.more) p.called ∙ append_assoc m.calls p.more q.more);
  no_sooner = omega (arith, p.no_sooner, q.no_sooner);
}

-- Nothing but other parts of the state is changed.
pub Later-same :
    (m r : Manager) → r.clock ≡ m.clock → r.calls ≡ m.calls → r.moment ≡ m.moment → Later m r
Later-same m r clock calls moment = record {
  same_clock = clock;
  more = [];
  called = ground (arith, calls, append-nil m.calls);
  no_sooner = omega (arith, moment);
}

pub Later-tick : (m : Manager) → Later m (tick m)
unfolding tick
Later-tick m = record {
  same_clock = refl;
  more = [];
  called = ground (arith, append-nil m.calls);
  no_sooner = omega arith;
}

pub Later-call : (c : Call) (m : Manager) → Later m (call c m)
unfolding call
Later-call c m = record { same_clock = refl; more = c ∷ []; called = refl; no_sooner = omega arith }

pub Later-waited : (m : Manager) → Later m (waited m)
unfolding waited
Later-waited m = record {
  same_clock = refl;
  more = [];
  called = ground (arith, append-nil m.calls);
  no_sooner = omega arith;
}

-- `waitpid` gave one of the answers for the process, at a moment from `m` to `r`.
abbrev pub SeenOver : (WaitStatus → Bool) → Answers → ℕ → Manager → Manager → Type 0
SeenOver over answers pid m r =
    (n : ℕ) × (m.moment ≤ n) × (n ≤ r.moment) × (over (answers n pid) ≡ true)

-- From `m`, when the stop signal has been sent, to `r`: SIGKILL was sent to the process, and not
-- before the time given had passed.
pub record WasKilled (time pid : ℕ) (m r : Manager) : Type 0 where
  pub patient : Manager
  pub waited_for : Later m patient
  pub overdue : instant m + time ≤ instant patient
  pub killed : Later (call (kill pid) patient) r

-- The stop signal of the service was sent to the process, and afterwards `waitpid` said that the
-- process is gone, or SIGKILL was sent to it after the service's timeout.
pub record WasStopped (answers : Answers) (section : ShutdownSection) (pid : ℕ) (m r : Manager)
    : Type 0 where
  pub ready : Manager
  pub prepared : Later m ready
  pub signalled : Later (call (send (parse_signal section.stop_signal) pid) ready) r
  pub outcome :
      SeenOver has_ended answers pid ready r
      ⊎ WasKilled
          (timeout_of section)
          pid
          (call (send (parse_signal section.stop_signal) pid) ready)
          r

-- The same of the process that a worker has, if any.
abbrev pub ProcessStopped : Answers → ShutdownSection → Option ℕ → Manager → Manager → Type 0
ProcessStopped answers section none m r = Unit
ProcessStopped answers section (some pid) m r = WasStopped answers section pid m r

abbrev pub HadStopped : Answers → Option WorkerNode → Manager → Manager → Type 0
HadStopped answers none m r = Unit
HadStopped answers (some w) m r = ProcessStopped answers w.def.shutdown w.pid m r

outcome_later :
    (answers : Answers) (section : ShutdownSection) (pid : ℕ) (ready told k r : Manager)
    → Later k r
    → SeenOver has_ended answers pid ready k ⊎ WasKilled (timeout_of section) pid told k
    → SeenOver has_ended answers pid ready r ⊎ WasKilled (timeout_of section) pid told r
outcome_later answers section pid ready told k r q (inl (n, from, to, e)) =
    inl (n, from, omega (arith, to, q.no_sooner), e)
outcome_later answers section pid ready told k r q (inr w) = inr record {
  patient = w.patient;
  waited_for = w.waited_for;
  overdue = w.overdue;
  killed = Later-trans w.killed q;
}

-- What was done between two managers was done between an earlier and a later one.
WasStopped-within :
    (answers : Answers) (section : ShutdownSection) (pid : ℕ) (l m k r : Manager)
    → Later l m
    → Later k r
    → WasStopped answers section pid m k
    → WasStopped answers section pid l r
WasStopped-within answers section pid l m k r p q s = record {
  ready = s.ready;
  prepared = Later-trans p s.prepared;
  signalled = Later-trans s.signalled q;
  outcome =
      outcome_later answers section pid s.ready
        (call (send (parse_signal section.stop_signal) pid) s.ready) k r q s.outcome;
}

process_within :
    (answers : Answers) (section : ShutdownSection) (o : Option ℕ) (l m k r : Manager)
    → Later l m
    → Later k r
    → ProcessStopped answers section o m k
    → ProcessStopped answers section o l r
process_within answers section none l m k r p q s = tt
process_within answers section (some pid) l m k r p q s =
    WasStopped-within answers section pid l m k r p q s

pub HadStopped-within :
    (answers : Answers) (w : Option WorkerNode) (l m k r : Manager)
    → Later l m
    → Later k r
    → HadStopped answers w m k
    → HadStopped answers w l r
HadStopped-within answers none l m k r p q s = tt
HadStopped-within answers (some w) l m k r p q s =
    process_within answers w.def.shutdown w.pid l m k r p q s
