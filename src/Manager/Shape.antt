-- ===== src/Manager/Shape.antt =====
-- The manager keeps the supervisor tree well-formed.
use dynamod.Common.{ℕ, ◌≤◌, ◌≡◌, refl, none, some}
use dynamod.Common.Lists.{length}
use dynamod.Common.Map.{Map}
use dynamod.Supervisor.Lifecycle.{exit_state, failed, running, stopping}
use dynamod.Supervisor.Strategy.Outcome.{apply_strategy-IsWellFormed}
use dynamod.Supervisor.Tree.{
  NodeId, SupervisorTree, WorkerNode, get, get_worker, get_supervisor, children_of, parent_of,
  register_pid, unregister_pid, update_worker,
}
use dynamod.Supervisor.Tree.Invariant.{IsWellFormed}
use dynamod.Supervisor.Tree.Updates.{IsReshaped, IsReshaped-IsWellFormed, update_worker-IsReshaped}
use dynamod.Manager.World.{Manager, tick, call, waited}
use dynamod.Manager.Exits.{reap_and_handle_exits}
use dynamod.Manager.Preserved.{Preserved}
use dynamod.Manager.Reaping.{reap_and_handle_exits-Returns}

pid_map-IsReshaped :
    (t : SupervisorTree) (pids : Map ℕ NodeId) → IsReshaped t (record t { pid_map = pids })
unfolding get get_worker get_supervisor children_of parent_of
pid_map-IsReshaped t pids = record {
  same_root = refl;
  same_children = λ id. refl;
  same_parent = λ id. refl;
  old_node = λ id n h. (n, h);
  old_worker = λ id w h. (w, h, refl, refl);
  old_supervisor = λ id n h. (n, h, refl);
}

abbrev pub Stays : (WorkerNode → WorkerNode) → Type 0
Stays f = (w : WorkerNode) → ((f w).parent ≡ w.parent) × ((f w).start_index ≡ w.start_index)

update :
    (id : NodeId) (f : WorkerNode → WorkerNode) (t : SupervisorTree)
    → Stays f
    → IsWellFormed t
    → IsWellFormed (update_worker id f t)
update id f t stays = IsReshaped-IsWellFormed (update_worker-IsReshaped id f t stays)

abbrev pub IsShaped : Manager → Type 0
IsShaped m = IsWellFormed m.tree

pub IsShaped-updated :
    (id : NodeId) (f : WorkerNode → WorkerNode) (m : Manager)
    → Stays f
    → IsShaped m
    → IsWellFormed (update_worker id f m.tree)
IsShaped-updated id f m stays v = update id f m.tree stays v

pub IsShaped-unregistered :
    (pid : ℕ) (m : Manager) → IsShaped m → IsWellFormed ((unregister_pid pid m.tree).0)
unfolding unregister_pid
IsShaped-unregistered pid m v = IsReshaped-IsWellFormed (pid_map-IsReshaped m.tree _) v

pub IsShaped-Preserved : Preserved IsShaped
unfolding tick call waited register_pid unregister_pid
IsShaped-Preserved = record {
  ticked = λ m v. v;
  called = λ c m v. v;
  reaped = λ m v. v;
  monitored = λ c m v. v;
  born = λ id s m e v.
      update id (λ w. record w { state = running }) _ (λ w. (refl, refl))
        (IsReshaped-IsWellFormed (pid_map-IsReshaped _ _) (
          update id (λ w. record w { pid = some s.pid; state = running }) m.tree (λ w. (refl, refl))
            v));
  unborn =
      λ id m v. update id (λ w. record w { state = failed none none }) m.tree (λ w. (refl, refl)) v;
  told = λ id m v. update id (λ w. record w { state = stopping none }) m.tree (λ w. (refl, refl)) v;
  ended = λ id pid exit m e v.
      update id (λ w. record w { pid = none; state = exit_state exit }) _ (λ w. (refl, refl))
        (IsReshaped-IsWellFormed (pid_map-IsReshaped m.tree _) v);
  forgotten = λ pid m e v. IsReshaped-IsWellFormed (pid_map-IsReshaped m.tree _) v;
  judged =
      λ supervisor id exit now m v. apply_strategy-IsWellFormed m.tree supervisor id exit now v;
}

-- For any answers of `waitpid`, which are finitely many here, reaping and everything that it sets off
-- ends with the answers it started with or fewer, and keeps the supervisor tree well-formed.
pub reap_and_handle_exits_ends :
    (m : Manager)
    → IsWellFormed m.tree
    → (r : Manager) × (reap_and_handle_exits m ≡ some r)
      × (IsWellFormed r.tree)
      × (length r.waits ≤ length m.waits)
reap_and_handle_exits_ends m shape =
    let (r, e, (v, fewer)) = reap_and_handle_exits-Returns IsShaped-Preserved m shape in
    (r, e, v, fewer)
