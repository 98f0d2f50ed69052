-- ===== src/Manager/Pids.antt =====
-- What leaves the process ids of workers alone.
use dynamod.Common.{
  ℕ, ◌≡◌, refl, ◌∙◌, List, [], ◌∷◌, Option, none, some, arith, Bool-cases, inl, inr,
}
use mathlib.Core.Option
use dynamod.Supervisor.Lifecycle.{ExitInfo, abandoned, exit_state}
use dynamod.Supervisor.Intensity.{record_restart_at}
use dynamod.Supervisor.Strategy.{
  abandon_all, restart_child, apply_to, apply_strategy, wants_restart,
}
use dynamod.Supervisor.Tree.{
  NodeId, SupervisorTree, SupervisorNode, WorkerNode, get_worker, get_supervisor, update_worker,
  update_supervisor,
}
use dynamod.Supervisor.Tree.Updates.{get_worker-update_worker, get_worker-update_supervisor}
use dynamod.Manager.Workers.{pid_in}

pub record SamePids (s t : SupervisorTree) : Type 0 where
  pub same_map : t.pid_map ≡ s.pid_map
  pub same_pid : (id : NodeId) → pid_in (get_worker t id) ≡ pid_in (get_worker s id)

SamePids-trans : {s t u : SupervisorTree} → SamePids s t → SamePids t u → SamePids s u
SamePids-trans a b = record {
  same_map = b.same_map ∙ a.same_map;
  same_pid = λ id. b.same_pid id ∙ a.same_pid id;
}

abbrev KeepsPid : (WorkerNode → WorkerNode) → Type 0
KeepsPid f = (w : WorkerNode) → (f w).pid ≡ w.pid

pid_in-map :
    (f : WorkerNode → WorkerNode) (o : Option WorkerNode)
    → KeepsPid f
    → pid_in (Option.map f o) ≡ pid_in o
pid_in-map f none keep = refl
pid_in-map f (some w) keep = keep w

pub update_worker-SamePids :
    (k : NodeId) (f : WorkerNode → WorkerNode) (t : SupervisorTree)
    → KeepsPid f
    → SamePids t (update_worker k f t)
unfolding update_worker
update_worker-SamePids k f t keep = record {
  same_map = refl;
  same_pid =
      λ id. ground (arith, get_worker-update_worker k id f t, pid_in-map f (get_worker t id) keep);
}

update_supervisor-SamePids :
    (k : NodeId) (f : SupervisorNode → SupervisorNode) (t : SupervisorTree)
    → SamePids t (update_supervisor k f t)
unfolding update_supervisor
update_supervisor-SamePids k f t = record {
  same_map = refl;
  same_pid = λ id. ground (arith, get_worker-update_supervisor k id f t);
}

abandon_all-SamePids : (ids : List NodeId) (t : SupervisorTree) → SamePids t (abandon_all ids t)
unfolding abandon_all
abandon_all-SamePids [] t = record { same_map = refl; same_pid = λ id. refl }
abandon_all-SamePids (k ∷ ids) t =
    SamePids-trans (update_worker-SamePids k (λ w. record w { state = abandoned }) t (λ w. refl))
      (abandon_all-SamePids ids (update_worker k (λ w. record w { state = abandoned }) t))

apply_to-SamePids :
    (o : Option SupervisorNode) (t : SupervisorTree) (supervisor failed : NodeId) (exit : ExitInfo)
    (now : ℕ)
    → SamePids t (apply_to o t supervisor failed exit now).0
unfolding apply_to restart_child
apply_to-SamePids none t supervisor failed exit now = record {
  same_map = refl;
  same_pid = λ id. refl;
}
apply_to-SamePids (some s) t supervisor failed exit now =
    let intensity = (record_restart_at s.intensity now).0 in
    let counted = update_supervisor supervisor (λ n. record n { intensity = intensity }) t in
    let to_counted : SamePids t counted = update_supervisor-SamePids supervisor _ t in
    elim (Bool-cases (wants_restart (get_worker t failed) exit)) [
      | inr final ↦
          rw final (
            update_worker-SamePids failed (λ w. record w { state = exit_state exit }) t (λ w. refl))
      | inl again ↦ rw again (elim (Bool-cases (record_restart_at s.intensity now).1) [
        | inl beyond ↦
            rw beyond (SamePids-trans to_counted (abandon_all-SamePids s.children counted))
        | inr within ↦ rw within to_counted
      ])
    ]

pub apply_strategy-SamePids :
    (t : SupervisorTree) (supervisor failed : NodeId) (exit : ExitInfo) (now : ℕ)
    → SamePids t (apply_strategy t supervisor failed exit now).0
unfolding apply_strategy
apply_strategy-SamePids t supervisor failed exit now =
    apply_to-SamePids (get_supervisor t supervisor) t supervisor failed exit now
