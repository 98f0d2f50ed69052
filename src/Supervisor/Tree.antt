-- ===== src/Supervisor/Tree.antt =====
-- rust/dynamod-svmgr/src/supervisor/tree.rs: supervisors and workers by name, and the workers'
-- process ids.
pub mod Views
pub mod Invariant
pub mod Updates
use dynamod.Common.{
  ℕ, String, Bool, true, false, List, [], ◌∷◌, ◌++◌, Option, none, some, if◌then◌else◌, string_key,
  nat_key, string_discrete, ite, zero, suc,
}
use mathlib.Core.Option
use dynamod.Common.Lists.{length}
use dynamod.Common.Map
use dynamod.Common.Map.{Map}
use dynamod.Config.Service.{ServiceDef, RestartPolicy}
use dynamod.Config.Supervisor.{RestartStrategy}
use dynamod.Supervisor.Intensity.{RestartIntensity}
use dynamod.Supervisor.Lifecycle.{ServiceState, stopped, running}

abbrev pub NodeId : Type 0
NodeId = String

pub record SupervisorNode : Type 0 where
  pub name : String
  pub strategy : RestartStrategy
  pub intensity : RestartIntensity
  pub children : List NodeId
  pub parent : Option NodeId

pub record WorkerNode : Type 0 where
  pub name : String
  pub def : ServiceDef
  pub state : ServiceState
  pub restart_policy : RestartPolicy
  pub start_index : ℕ
  pub parent : NodeId
  pub pid : Option ℕ

pub data TreeNode : Type 0 where
  supervisor : SupervisorNode → TreeNode
  worker : WorkerNode → TreeNode

pub record SupervisorTree : Type 0 where
  pub nodes : Map NodeId TreeNode
  pub root_id : NodeId
  pub pid_map : Map ℕ NodeId

pub data TreeError : Type 0 where
  duplicate_node parent_not_found parent_is_worker : String → TreeError

pub data Result {ℓ} (A : Type ℓ) : Type ℓ where
  ok : A → Result A
  err : TreeError → Result A

abbrev root_node : String → RestartStrategy → RestartIntensity → SupervisorNode
root_node root_name strategy intensity = record {
  name = root_name;
  strategy = strategy;
  intensity = intensity;
  children = [];
  parent = none;
}

unfoldable pub new : String → RestartStrategy → RestartIntensity → SupervisorTree
new root_name strategy intensity = record {
  nodes =
      Map.insert {V = TreeNode} root_name (supervisor (root_node root_name strategy intensity)) [];
  root_id = root_name;
  pid_map = [];
}

unfoldable pub get : SupervisorTree → NodeId → Option TreeNode
get tree id = Map.lookup id tree.nodes

abbrev as_worker : Option TreeNode → Option WorkerNode
as_worker (some (worker w)) = some w
as_worker _ = none

abbrev as_supervisor : Option TreeNode → Option SupervisorNode
as_supervisor (some (supervisor s)) = some s
as_supervisor _ = none

unfoldable pub get_worker : SupervisorTree → NodeId → Option WorkerNode
unfolding get
get_worker tree id = as_worker (get tree id)

unfoldable pub get_supervisor : SupervisorTree → NodeId → Option SupervisorNode
unfolding get
get_supervisor tree id = as_supervisor (get tree id)

-- `if let Some(TreeNode::Worker(w)) = tree.get_mut(id) { *w = f(w) }`
abbrev pub on_worker : (WorkerNode → WorkerNode) → TreeNode → TreeNode
on_worker f (worker w) = worker (f w)
on_worker f (supervisor s) = supervisor s

abbrev pub on_supervisor : (SupervisorNode → SupervisorNode) → TreeNode → TreeNode
on_supervisor f (worker w) = worker w
on_supervisor f (supervisor s) = supervisor (f s)

unfoldable pub update_worker : NodeId → (WorkerNode → WorkerNode) → SupervisorTree → SupervisorTree
update_worker id f tree = record tree { nodes = Map.adjust id (on_worker f) tree.nodes }

unfoldable pub update_supervisor :
    NodeId → (SupervisorNode → SupervisorNode) → SupervisorTree → SupervisorTree
update_supervisor id f tree = record tree { nodes = Map.adjust id (on_supervisor f) tree.nodes }

abbrev adopt : NodeId → SupervisorNode → SupervisorNode
adopt name parent = record parent { children = parent.children ++ name ∷ [] }

add_node : SupervisorTree → NodeId → NodeId → TreeNode → SupervisorTree
unfolding update_supervisor
add_node tree name parent_id node =
    let tree' = update_supervisor parent_id (adopt name) tree in
    record tree' { nodes = Map.insert name node tree'.nodes }

abbrev new_supervisor : String → NodeId → RestartStrategy → RestartIntensity → SupervisorNode
new_supervisor name parent_id strategy intensity = record {
  name = name;
  strategy = strategy;
  intensity = intensity;
  children = [];
  parent = some parent_id;
}

insert_supervisor :
    SupervisorTree
    → String
    → NodeId
    → RestartStrategy
    → RestartIntensity
    → Option TreeNode
    → Result SupervisorTree
unfolding add_node
insert_supervisor tree name parent_id strategy intensity (some (supervisor parent)) =
    ok
      (add_node tree name parent_id (supervisor (new_supervisor name parent_id strategy intensity)))
insert_supervisor tree name parent_id strategy intensity (some (worker w)) =
    err (parent_is_worker parent_id)
insert_supervisor tree name parent_id strategy intensity none = err (parent_not_found parent_id)

unfoldable pub add_supervisor :
    SupervisorTree → String → NodeId → RestartStrategy → RestartIntensity → Result SupervisorTree
unfolding insert_supervisor get
add_supervisor tree name parent_id strategy intensity = elim (Map.lookup name tree.nodes) [
  | some _ ↦ err (duplicate_node name)
  | none ↦ insert_supervisor tree name parent_id strategy intensity (get tree parent_id)
]

abbrev new_worker : ServiceDef → NodeId → ℕ → WorkerNode
new_worker def parent_id start_index = record {
  name = def.service.name;
  def = def;
  state = stopped;
  restart_policy = def.restart.policy;
  start_index = start_index;
  parent = parent_id;
  pid = none;
}

insert_worker : SupervisorTree → ServiceDef → NodeId → Option TreeNode → Result SupervisorTree
unfolding add_node
insert_worker tree def parent_id (some (supervisor parent)) = ok (
    add_node tree def.service.name parent_id
      (worker (new_worker def parent_id (length parent.children))))
insert_worker tree def parent_id (some (worker w)) = err (parent_is_worker parent_id)
insert_worker tree def parent_id none = err (parent_not_found parent_id)

unfoldable pub add_worker : SupervisorTree → ServiceDef → NodeId → Result SupervisorTree
unfolding insert_worker get
add_worker tree def parent_id = elim (Map.lookup def.service.name tree.nodes) [
  | some _ ↦ err (duplicate_node def.service.name)
  | none ↦ insert_worker tree def parent_id (get tree parent_id)
]

unfoldable pub register_pid : NodeId → ℕ → SupervisorTree → SupervisorTree
unfolding update_worker
register_pid worker_id pid tree =
    let tree' = update_worker worker_id (λ w. record w { pid = some pid; state = running }) tree in
    record tree' { pid_map = Map.insert pid worker_id tree'.pid_map }

unfoldable pub unregister_pid : ℕ → SupervisorTree → SupervisorTree × Option NodeId
unregister_pid pid tree =
    (record tree { pid_map = Map.remove pid tree.pid_map }, Map.lookup pid tree.pid_map)

unfoldable pub worker_for_pid : SupervisorTree → ℕ → Option NodeId
worker_for_pid tree pid = Map.lookup pid tree.pid_map

abbrev children_in : Option SupervisorNode → List NodeId
children_in (some s) = s.children
children_in none = []

unfoldable pub children_of : SupervisorTree → NodeId → List NodeId
unfolding get_supervisor
children_of tree id = children_in (get_supervisor tree id)

abbrev parent_in : Option TreeNode → Option NodeId
parent_in (some (worker w)) = some w.parent
parent_in (some (supervisor s)) = s.parent
parent_in none = none

unfoldable pub parent_of : SupervisorTree → NodeId → Option NodeId
unfolding get
parent_of tree id = parent_in (get tree id)

abbrev is_worker : Option TreeNode → Bool
is_worker (some (worker _)) = true
is_worker _ = false

keep_workers : Map NodeId TreeNode → List NodeId → List NodeId
keep_workers nodes [] = []
keep_workers nodes (id ∷ ids) =
    let rest = keep_workers nodes ids in if is_worker (Map.lookup id nodes) then id ∷ rest else rest

unfoldable pub workers_under : SupervisorTree → NodeId → List NodeId
unfolding keep_workers children_of
workers_under tree id = keep_workers tree.nodes (children_of tree id)

worker_ids : Map NodeId TreeNode → List NodeId
worker_ids [] = []
worker_ids ((id, node) ∷ nodes) =
    let rest = worker_ids nodes in if is_worker (some node) then id ∷ rest else rest

unfoldable pub all_workers : SupervisorTree → List NodeId
unfolding worker_ids
all_workers tree = worker_ids tree.nodes

-- `iter().position(|id| id == failed)`
unfoldable pub position : NodeId → List NodeId → Option ℕ
position id [] = none
position id (c ∷ cs) = ite (string_discrete c id) (some 0) (Option.map suc (position id cs))
