-- ===== src/Manager/Stopping/All.antt =====
-- A shutdown ends, and every service of the graph is stopped.
use dynamod.Common.{◌≡◌, true, List, [], ◌∷◌, none, string_key, if◌then◌else◌}
use mathlib.Core.Option
use dynamod.Common.Set
use dynamod.Supervisor.Tree.{NodeId, get_worker}
use dynamod.Manager.World.{Manager}
use dynamod.Manager.Workers.{pid_of}
use dynamod.Manager.Shape.{IsShaped}
use dynamod.Manager.Stopping.{Answers}
use dynamod.Manager.Stopping.Signals.{Later, HadStopped}

-- The services in the order have no process id, all others keep theirs, and the processes that the
-- services in the order had were stopped.
record AllStopped (answers : Answers) (order : List NodeId) (m r : Manager) : Type 0 where
  pub no_pid : (id : NodeId) → pid_of id r ≡ (if Set.contains id order then none else pid_of id m)
  pub shaped : IsShaped m → IsShaped r
  pub later : Later m r
  pub had_stopped :
      (id : NodeId) → Set.contains id order ≡ true → HadStopped answers (get_worker m.tree id) m r

-- Of each service: the tree has no process id for it any more, and if it had a process, that was
-- stopped.
pub EachStopped : Answers → Manager → Manager → List NodeId → Type 0
EachStopped answers m r [] = Unit
EachStopped answers m r (name ∷ names) =
    (pid_of name r ≡ none)
    × HadStopped answers (get_worker m.tree name) m r
    × EachStopped answers m r names
