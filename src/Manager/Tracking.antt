-- ===== src/Manager/Tracking.antt =====
-- The manager knows whose process it is when one ends, as long as the system gives out process ids
-- that are not in use.
use dynamod.Common.{
  ℕ, ◌≡◌, refl, sym, ap, subst, ◌∙◌, Bool, false, ◌||◌, ◌==◌, List, [], ◌∷◌, Option, none, some,
  arith, ite, string_discrete, string_key, nat_key,
}
use mathlib.Core.Option
use dynamod.Common.Map
use dynamod.Common.Map.{Map, lookup-insert, lookup-remove}
use dynamod.Supervisor.Lifecycle.{ExitInfo, exit_state, failed, running, stopping}
use dynamod.Supervisor.Strategy.{apply_strategy}
use dynamod.Supervisor.Tree.{
  NodeId, SupervisorTree, WorkerNode, get, get_worker, register_pid, unregister_pid, update_worker,
  worker_for_pid,
}
use dynamod.Supervisor.Tree.Updates.{get_worker-update_worker}
use dynamod.Manager.World.{Manager, Spawned, tick, call, waited, spawn_result, tail, with_tree}
use dynamod.Manager.Workers.{
  pid_in, mark_running, registered, popped, mark_failed_start, mark_stopping,
}
use dynamod.Manager.Pids.{SamePids, update_worker-SamePids, apply_strategy-SamePids}
use dynamod.Manager.Exits.{reap_and_handle_exits, unregistered, mark_ended}
use dynamod.Manager.Preserved.{Preserved}
use dynamod.Manager.Reaping.{reap_and_handle_exits-Returns}

uses : ℕ → List (Option Spawned) → Bool
uses p [] = false
uses p (none ∷ ss) = uses p ss
uses p (some s ∷ ss) = (s.pid == p) || uses p ss

-- The ids of processes to come are all different, and none is in `pids`.
unfoldable pub Fresh : List (Option Spawned) → Map ℕ NodeId → Type 0
unfolding uses
Fresh [] pids = Unit {0}
Fresh (none ∷ ss) pids = Fresh ss pids
Fresh (some s ∷ ss) pids = (Map.lookup s.pid pids ≡ none) × (uses s.pid ss ≡ false) × Fresh ss pids

Fresh-insert :
    (ss : List (Option Spawned)) (pids : Map ℕ NodeId) (p : ℕ) (id : NodeId)
    → uses p ss ≡ false
    → Fresh ss pids
    → Fresh ss (Map.insert p id pids)
unfolding Fresh uses
Fresh-insert [] pids p id out f = tt
Fresh-insert (none ∷ ss) pids p id out f = Fresh-insert ss pids p id out f
Fresh-insert (some s ∷ ss) pids p id out f =
    ground (arith, out, f, lookup-insert p s.pid id pids, Fresh-insert ss pids p id)

Fresh-remove :
    (ss : List (Option Spawned)) (pids : Map ℕ NodeId) (p : ℕ)
    → Fresh ss pids
    → Fresh ss (Map.remove p pids)
unfolding Fresh
Fresh-remove [] pids p f = tt
Fresh-remove (none ∷ ss) pids p f = Fresh-remove ss pids p f
Fresh-remove (some s ∷ ss) pids p f =
    ground (arith, f, lookup-remove p s.pid pids, Fresh-remove ss pids p)

-- The id of a worker's process leads to the worker.
abbrev pub Known : SupervisorTree → Type 0
Known t = (id : NodeId) (p : ℕ) → pid_in (get_worker t id) ≡ some p → worker_for_pid t p ≡ some id

pub record IsTracked (m : Manager) : Type 0 where
  pub known : Known m.tree
  pub fresh : Fresh m.spawns m.tree.pid_map

-- Steps that leave process ids alone.
same :
    (m m' : Manager) → m'.spawns ≡ m.spawns → SamePids m.tree m'.tree → IsTracked m → IsTracked m'
unfolding worker_for_pid
same m m' spawns pids v = record {
  known = λ id p h. ap (Map.lookup p) pids.same_map ∙ v.known id p (sym (pids.same_pid id) ∙ h);
  fresh =
      subst (Fresh m'.spawns) (sym pids.same_map)
        (subst (λ ss. Fresh ss m.tree.pid_map) (sym spawns) v.fresh);
}

tail-Fresh :
    (ss : List (Option Spawned)) (pids : Map ℕ NodeId) → Fresh ss pids → Fresh (tail ss) pids
unfolding Fresh
tail-Fresh [] pids f = tt
tail-Fresh (none ∷ ss) pids f = f
tail-Fresh (some s ∷ ss) pids f = ground (arith, f)

abbrev first : List (Option Spawned) → Option Spawned
first [] = none
first (s ∷ ss) = s

head-Fresh :
    (ss : List (Option Spawned)) (pids : Map ℕ NodeId) (s : Spawned) (id : NodeId)
    → first ss ≡ some s
    → Fresh ss pids
    → (Map.lookup s.pid pids ≡ none) × Fresh (tail ss) (Map.insert s.pid id pids)
unfolding Fresh
head-Fresh [] pids s id e f = absurd (cc)
head-Fresh (none ∷ ss) pids s id e f = absurd (cc)
head-Fresh (some r ∷ ss) pids s id e f =
    let pid : r.pid ≡ s.pid = cc in
    (
      subst (λ p. Map.lookup p pids ≡ none) pid f.0,
      subst (λ p. Fresh ss (Map.insert p id pids)) pid (Fresh-insert ss pids r.pid id f.1 f.2),
    )

abbrev run_as : ℕ → WorkerNode → WorkerNode
run_as pid w = record w { pid = some pid; state = running }

get_worker-register_pid :
    (t : SupervisorTree) (id k : NodeId) (pid : ℕ)
    → get_worker (register_pid id pid t) k
      ≡ ite (string_discrete id k) (Option.map (run_as pid) (get_worker t k)) (get_worker t k)
unfolding register_pid get_worker get
get_worker-register_pid t id k pid = get_worker-update_worker id k (run_as pid) t

born-Known :
    (t : SupervisorTree) (id : NodeId) (pid : ℕ)
    → Map.lookup pid t.pid_map ≡ none
    → Known t
    → Known (register_pid id pid t)
unfolding register_pid worker_for_pid update_worker
born-Known t id pid free known k p h = ground (
  arith,
  free,
  h,
  known k p,
  lookup-insert pid p id t.pid_map,
  get_worker-register_pid t id k pid,
)

abbrev end_with : ExitInfo → WorkerNode → WorkerNode
end_with exit w = record w { pid = none; state = exit_state exit }

get_worker-unregister_pid :
    (t : SupervisorTree) (k : NodeId) (pid : ℕ)
    → get_worker (unregister_pid pid t).0 k ≡ get_worker t k
unfolding unregister_pid get_worker get
get_worker-unregister_pid t k pid = refl

forgotten-Known :
    (t : SupervisorTree) (pid : ℕ)
    → (unregister_pid pid t).1 ≡ none
    → Known t
    → Known (unregister_pid pid t).0
unfolding unregister_pid worker_for_pid
forgotten-Known t pid unknown known k p h =
    ground (
      arith,
      h,
      unknown,
      known k p,
      lookup-remove pid p t.pid_map,
      get_worker-unregister_pid t k pid,
    )

ended-Known :
    (t : SupervisorTree) (id : NodeId) (pid : ℕ) (exit : ExitInfo)
    → (unregister_pid pid t).1 ≡ some id
    → Known t
    → Known (update_worker id (end_with exit) (unregister_pid pid t).0)
unfolding unregister_pid worker_for_pid update_worker
ended-Known t id pid exit was known k p h = ground (
  arith,
  h,
  was,
  known k p,
  lookup-remove pid p t.pid_map,
  get_worker-update_worker id k (end_with exit) (unregister_pid pid t).0,
  get_worker-unregister_pid t k pid,
)

is_born :
    (id : NodeId) (s : Spawned) (m : Manager)
    → spawn_result m ≡ some s
    → IsTracked m
    → IsTracked (mark_running id (registered id s.pid (popped m)))
unfolding register_pid update_worker
is_born id s m e v =
    let (free, later) = head-Fresh m.spawns m.tree.pid_map s id e v.fresh in
    let running_now : IsTracked (registered id s.pid (popped m)) = record {
      known = born-Known m.tree id s.pid free v.known;
      fresh = later;
    } in
    same (registered id s.pid (popped m)) (mark_running id (registered id s.pid (popped m))) refl
      (update_worker-SamePids id (λ w. record w { state = running }) (register_pid id s.pid m.tree)
        (λ w. refl))
      running_now

has_ended :
    (id : NodeId) (pid : ℕ) (exit : ExitInfo) (m : Manager)
    → (unregister_pid pid m.tree).1 ≡ some id
    → IsTracked m
    → IsTracked (mark_ended id exit (unregistered pid m))
unfolding unregister_pid update_worker
has_ended id pid exit m e v = record {
  known = ended-Known m.tree id pid exit e v.known;
  fresh = Fresh-remove m.spawns m.tree.pid_map pid v.fresh;
}

is_forgotten :
    (pid : ℕ) (m : Manager)
    → (unregister_pid pid m.tree).1 ≡ none
    → IsTracked m
    → IsTracked (unregistered pid m)
unfolding unregister_pid
is_forgotten pid m e v = record {
  known = forgotten-Known m.tree pid e v.known;
  fresh = Fresh-remove m.spawns m.tree.pid_map pid v.fresh;
}

pub IsTracked-Preserved : Preserved IsTracked
unfolding tick call waited
IsTracked-Preserved = record {
  ticked = λ m v. record { known = v.known; fresh = v.fresh };
  called = λ c m v. record { known = v.known; fresh = v.fresh };
  reaped = λ m v. record { known = v.known; fresh = v.fresh };
  monitored = λ c m v. record { known = v.known; fresh = v.fresh };
  born = λ id s m e v. is_born id s m e v;
  unborn = λ id m v.
      same (popped m) (mark_failed_start id (popped m)) refl
        (update_worker-SamePids id (λ w. record w { state = failed none none }) m.tree (λ w. refl))
        (record { known = v.known; fresh = tail-Fresh m.spawns m.tree.pid_map v.fresh });
  told = λ id m v.
      same m (mark_stopping id m) refl
        (update_worker-SamePids id (λ w. record w { state = stopping none }) m.tree (λ w. refl)) v;
  ended = λ id pid exit m e v. has_ended id pid exit m e v;
  forgotten = λ pid m e v. is_forgotten pid m e v;
  judged = λ supervisor id exit now m v.
      same m (with_tree (apply_strategy m.tree supervisor id exit now).0 m) refl
        (apply_strategy-SamePids m.tree supervisor id exit now) v;
}

-- If the ids of the processes to be started are all different and none is registered, and each
-- worker's process id leads to the worker, then both hold again after reaping, with all restarts:
-- the end of every process that a worker has will be attributed to that worker.
pub reap_and_handle_exits-IsTracked :
    (m : Manager) → IsTracked m → (r : Manager) × (reap_and_handle_exits m ≡ some r) × IsTracked r
reap_and_handle_exits-IsTracked m v =
    let (r, e, (v', fewer)) = reap_and_handle_exits-Returns IsTracked-Preserved m v in (r, e, v')
