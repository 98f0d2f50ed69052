-- ===== src/Supervisor/Strategy/Outcome.antt =====
-- `apply_strategy` and `escalate_failure` on every branch, and the shape of the tree after them.
use dynamod.Common.{
  ℕ, ◌≡◌, refl, ap, true, false, List, [], ◌∷◌, Option, none, some, arith, if◌then◌else◌,
  Bool-cases, Option-cases, inl, inr, string_key,
}
use mathlib.Core.Option
use mathlib.Core.Path.{fun_ext}
use dynamod.Common.Map.{adjust_fixed}
use dynamod.Common.Set
use dynamod.Supervisor.Intensity.{record_restart_at}
use dynamod.Supervisor.Lifecycle.{ExitInfo, abandoned, exit_state}
use dynamod.Supervisor.Tree.{
  NodeId, SupervisorTree, SupervisorNode, WorkerNode, get_worker, get_supervisor, parent_of,
  update_worker, update_supervisor, on_worker,
}
use dynamod.Supervisor.Tree.Invariant.{IsWellFormed}
use dynamod.Supervisor.Tree.Updates.{
  IsReshaped, IsReshaped-refl, IsReshaped-trans, IsReshaped-IsWellFormed, update_worker-IsReshaped,
  update_supervisor-IsReshaped, get_worker-update_worker, get_worker-update_supervisor,
}
use dynamod.Supervisor.Strategy.{
  StrategyAction, no_action, should_restart, abandon_all, restart_child, apply_to, apply_strategy,
  escalate_failure, unknown_exit, wants_restart,
}

abbrev pub abandon : WorkerNode → WorkerNode
abandon w = record w { state = abandoned }

-- `abandon_all` marks the listed workers and touches no other.
get_worker-abandon_all :
    (ids : List NodeId) (t : SupervisorTree) (id : NodeId)
    → get_worker (abandon_all ids t) id
      ≡ (if Set.contains id ids then Option.map abandon (get_worker t id) else get_worker t id)
unfolding abandon_all Set.contains
get_worker-abandon_all [] t id = refl
get_worker-abandon_all (k ∷ ids) t id = ground (
  arith,
  get_worker-abandon_all ids (update_worker k abandon t) id,
  get_worker-update_worker k id abandon t,
)

abandon_all-IsReshaped : (ids : List NodeId) (t : SupervisorTree) → IsReshaped t (abandon_all ids t)
unfolding abandon_all
abandon_all-IsReshaped [] t = IsReshaped-refl t
abandon_all-IsReshaped (k ∷ ids) t =
    IsReshaped-trans (update_worker-IsReshaped k abandon t (λ w. (refl, refl)))
      (abandon_all-IsReshaped ids (update_worker k abandon t))

module _ (t : SupervisorTree) (supervisor failed : NodeId) (exit : ExitInfo) (now : ℕ)
    (s : SupervisorNode) (w : WorkerNode) (known : get_supervisor t supervisor ≡ some s)
    (child : get_worker t failed ≡ some w) where
  -- A child that is not to be restarted is marked, and nothing is stopped or started.
  pub apply_strategy_final :
      should_restart w.restart_policy exit ≡ false
      → apply_strategy t supervisor failed exit now
        ≡ (update_worker failed (λ w. record w { state = exit_state exit }) t, no_action)
  unfolding apply_strategy
  apply_strategy_final h = ground (arith, known, child)

  -- Beyond the intensity the supervisor fails: nothing is started, all children are to be stopped,
  -- those that are workers are marked abandoned, and every other worker is left as it was.
  pub apply_strategy-gives_up :
      should_restart w.restart_policy exit ≡ true
      → (record_restart_at s.intensity now).1 ≡ true
      → let r = apply_strategy t supervisor failed exit now in
        (r.1 ≡ record { to_stop = s.children; to_start = []; supervisor_failed = true })
        × ((id : NodeId)
            → get_worker r.0 id ≡ (
                if Set.contains id s.children
                then Option.map abandon (get_worker t id)
                else get_worker t id))
  unfolding apply_strategy restart_child
  apply_strategy-gives_up h beyond = (
    ground (arith, known, child),
    λ id. ground (
      arith,
      known,
      child,
      get_worker-update_supervisor supervisor id
          (λ n. record n { intensity = (record_restart_at s.intensity now).0 }) t,
      get_worker-abandon_all s.children
          (update_supervisor supervisor
            (λ n. record n { intensity = (record_restart_at s.intensity now).0 }) t)
          id,
    ),
  )

apply_to-IsReshaped :
    (o : Option SupervisorNode) (t : SupervisorTree) (supervisor failed : NodeId) (exit : ExitInfo)
    (now : ℕ)
    → IsReshaped t (apply_to o t supervisor failed exit now).0
unfolding apply_to restart_child
apply_to-IsReshaped none t supervisor failed exit now = IsReshaped-refl t
apply_to-IsReshaped (some s) t supervisor failed exit now =
    let counted =
      update_supervisor supervisor
        (λ n. record n { intensity = (record_restart_at s.intensity now).0 }) t in
    let to_counted : IsReshaped t counted =
      update_supervisor-IsReshaped supervisor _ t (λ n. (refl, refl)) in
    elim (Bool-cases (wants_restart (get_worker t failed) exit)) [
      | inr final ↦ rw final (
          update_worker-IsReshaped failed (λ w. record w { state = exit_state exit }) t
            (λ w. (refl, refl)))
      | inl again ↦ rw again (elim (Bool-cases (record_restart_at s.intensity now).1) [
        | inl beyond ↦
            rw beyond (IsReshaped-trans to_counted (abandon_all-IsReshaped s.children counted))
        | inr within ↦ rw within to_counted
      ])
    ]

-- Whatever exits under whatever supervisor, `apply_strategy` keeps the tree well-formed.
pub apply_strategy-IsWellFormed :
    (t : SupervisorTree) (supervisor failed : NodeId) (exit : ExitInfo) (now : ℕ)
    → IsWellFormed t
    → IsWellFormed (apply_strategy t supervisor failed exit now).0
unfolding apply_strategy
apply_strategy-IsWellFormed t supervisor failed exit now =
    IsReshaped-IsWellFormed
      (apply_to-IsReshaped (get_supervisor t supervisor) t supervisor failed exit now)

update_worker_of_supervisor :
    (t : SupervisorTree) (id : NodeId) (f : WorkerNode → WorkerNode) (s : SupervisorNode)
    → get_supervisor t id ≡ some s
    → update_worker id f t ≡ t
unfolding update_worker get_supervisor
update_worker_of_supervisor t id f s h =
    ap (λ nodes. record t { nodes = nodes }) (adjust_fixed id (on_worker f) t.nodes (ground arith))

no_worker_no_action :
    (t : SupervisorTree) (p id : NodeId) (exit : ExitInfo) (now : ℕ) (s : SupervisorNode)
    → get_supervisor t id ≡ some s
    → apply_strategy t p id exit now ≡ (t, no_action)
unfolding apply_strategy get_worker get_supervisor
no_worker_no_action t p id exit now s h = elim (Option-cases (get_supervisor t p)) [
  | inl missing ↦ ground arith
  | inr (n, found) ↦
      ground
        (arith, update_worker_of_supervisor t id (λ w. record w { state = exit_state exit }) s h)
]

-- The failure of a supervisor does not reach its parent: for the root `escalate_failure` returns
-- nothing, and for any other supervisor it returns the parent with an action that stops nothing,
-- starts nothing and reports no failure, and it leaves the tree as it was.
pub escalate_failure-no_action :
    (t : SupervisorTree) (id : NodeId) (now : ℕ) (s : SupervisorNode)
    → get_supervisor t id ≡ some s
    → escalate_failure t id now ≡ Option.map (λ p. (p, t, no_action)) (parent_of t id)
unfolding escalate_failure
escalate_failure-no_action t id now s h =
    ap
      (λ (r : NodeId → SupervisorTree × StrategyAction).
        Option.map (λ p. (p, (r p).0, (r p).1)) (parent_of t id))
      (fun_ext λ p. no_worker_no_action t p id unknown_exit now s h)
