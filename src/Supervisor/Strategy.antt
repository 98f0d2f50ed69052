-- ===== src/Supervisor/Strategy.antt =====
-- rust/dynamod-svmgr/src/supervisor/strategy.rs: which children to stop and start when one exits.
pub mod Affected
pub mod Outcome
use dynamod.Common.{
  ℕ, zero, suc, Bool, true, false, not, List, [], ◌∷◌, Option, none, some, reverse, ite,
  if◌then◌else◌, string_discrete, unwrap_or,
}
use dynamod.Common.Lists.{drop}
use dynamod.Config.Service.{RestartPolicy, permanent, transient, temporary}
use dynamod.Config.Supervisor.{RestartStrategy, one_for_one, one_for_all, rest_for_one}
use dynamod.Supervisor.Intensity.{record_restart_at}
use dynamod.Supervisor.Lifecycle.{ExitInfo, is_normal, exit_state, abandoned}
use dynamod.Supervisor.Tree.{
  NodeId, SupervisorTree, SupervisorNode, WorkerNode, get_worker, get_supervisor, update_worker,
  update_supervisor, parent_of, position,
}

pub record StrategyAction : Type 0 where
  pub to_stop : List NodeId
  pub to_start : List NodeId
  pub supervisor_failed : Bool

abbrev pub no_action : StrategyAction
no_action = record { to_stop = []; to_start = []; supervisor_failed = false }

unfoldable pub should_restart : RestartPolicy → ExitInfo → Bool
should_restart permanent exit = true
should_restart transient exit = not (is_normal exit)
should_restart temporary exit = false

unfoldable pub apply_one_for_one : NodeId → StrategyAction
apply_one_for_one failed = record {
  to_stop = [];
  to_start = failed ∷ [];
  supervisor_failed = false;
}

unfoldable pub apply_one_for_all : List NodeId → StrategyAction
apply_one_for_all children = record {
  to_stop = reverse children;
  to_start = children;
  supervisor_failed = false;
}

unfoldable pub apply_rest_for_one : List NodeId → NodeId → StrategyAction
unfolding position drop
apply_rest_for_one children failed =
    let affected = drop (unwrap_or (position failed children) 0) children in
    record { to_stop = reverse affected; to_start = affected; supervisor_failed = false }

unfoldable pub dispatch : RestartStrategy → List NodeId → NodeId → StrategyAction
dispatch one_for_one children failed = apply_one_for_one failed
dispatch one_for_all children failed = apply_one_for_all children
dispatch rest_for_one children failed = apply_rest_for_one children failed

-- "Mark all children as abandoned".
unfoldable pub abandon_all : List NodeId → SupervisorTree → SupervisorTree
abandon_all [] tree = tree
abandon_all (id ∷ ids) tree =
    abandon_all ids (update_worker id (λ w. record w { state = abandoned }) tree)

abbrev pub wants_restart : Option WorkerNode → ExitInfo → Bool
wants_restart none exit = false
wants_restart (some w) exit = should_restart w.restart_policy exit

-- The restart is counted, and either the supervisor gives up or its strategy is applied.
unfoldable pub restart_child :
    SupervisorTree → NodeId → SupervisorNode → NodeId → ℕ → SupervisorTree × StrategyAction
restart_child tree supervisor_id s failed now =
    let (intensity, exceeded) = record_restart_at s.intensity now in
    let counted = update_supervisor supervisor_id (λ n. record n { intensity = intensity }) tree in
    if exceeded
    then (
      abandon_all s.children counted,
      record { to_stop = s.children; to_start = []; supervisor_failed = true },
    )
    else (counted, dispatch s.strategy s.children failed)

unfoldable pub apply_to :
    Option SupervisorNode
    → SupervisorTree
    → NodeId
    → NodeId
    → ExitInfo
    → ℕ
    → SupervisorTree × StrategyAction
apply_to none tree supervisor_id failed exit now = (tree, no_action)
apply_to (some s) tree supervisor_id failed exit now =
    if wants_restart (get_worker tree failed) exit
    then restart_child tree supervisor_id s failed now
    else (update_worker failed (λ w. record w { state = exit_state exit }) tree, no_action)

unfoldable pub apply_strategy :
    SupervisorTree → NodeId → NodeId → ExitInfo → ℕ → SupervisorTree × StrategyAction
unfolding apply_to
apply_strategy tree supervisor_id failed exit now =
    apply_to (get_supervisor tree supervisor_id) tree supervisor_id failed exit now

abbrev unknown_exit : ExitInfo
unknown_exit = record { exit_code = none; signal = none }

unfoldable pub escalate_failure :
    SupervisorTree → NodeId → ℕ → Option (NodeId × SupervisorTree × StrategyAction)
unfolding apply_strategy
escalate_failure tree failed_supervisor now = elim (parent_of tree failed_supervisor) [
  | none ↦ none
  | some parent ↦
      let (tree', action) = apply_strategy tree parent failed_supervisor unknown_exit now in
      some (parent, tree', action)
]
