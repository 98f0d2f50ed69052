-- ===== src/Supervisor/Tree/Invariant.antt =====
-- The shape of the tree: parents and children agree, start indices are positions, every node is
-- below the root. `new`, `add_supervisor` and `add_worker` keep it.
use dynamod.Common.{
  ℕ, String, ◌≡◌, refl, subst, ◌≢◌, true, false, ◌||◌, List, [], ◌∷◌, ◌++◌, none, some, arith, ite,
  Option-cases, Bool-cases, inl, inr, string_discrete, string_key,
}
use dynamod.Common.Set
use dynamod.Common.Lists.{length}
use dynamod.Common.Map
use dynamod.Config.Supervisor.{RestartStrategy}
use dynamod.Config.Service.{ServiceDef}
use dynamod.Supervisor.Intensity.{RestartIntensity}
use dynamod.Supervisor.Tree.{
  NodeId, TreeNode, SupervisorTree, SupervisorNode, WorkerNode, supervisor, worker, ok, get,
  get_worker, children_of, parent_of, add_supervisor, add_worker, new, position, as_worker, adopt,
  root_node,
}
use dynamod.Supervisor.Tree.Views.{Added, add_supervisor-Added, add_worker-Added}

-- A node from which the parents lead to the root.
pub data Rooted (t : SupervisorTree) : NodeId → Type 0 where
  at_root : {id : NodeId} → id ≡ t.root_id → Rooted t id
  below : {id p : NodeId} → parent_of t id ≡ some p → Rooted t p → Rooted t id

pub record IsWellFormed (t : SupervisorTree) : Type 0 where
  -- A child on a supervisor's list has that supervisor as its parent ...
  pub listed : (id c : NodeId) → Set.contains c (children_of t id) ≡ true → parent_of t c ≡ some id
  -- ... and a node with a parent is on the parent's list.
  pub lists : (id p : NodeId) → parent_of t id ≡ some p → Set.contains id (children_of t p) ≡ true
  -- A worker's `start_index` is its first position among its siblings.
  pub index :
      (id : NodeId) (w : WorkerNode)
      → get_worker t id ≡ some w
      → position id (children_of t w.parent) ≡ some w.start_index
  pub rooted : (id : NodeId) (n : TreeNode) → get t id ≡ some n → Rooted t id
  pub top : (n : SupervisorNode) × (get t t.root_id ≡ some (supervisor n)) × (n.parent ≡ none)

as_worker-eq_some :
    (node : TreeNode) {w : WorkerNode} → as_worker (some node) ≡ some w → node ≡ worker w
as_worker-eq_some (worker x) h = ground arith
as_worker-eq_some (supervisor x) h = ground arith

position-nil : (k : NodeId) → position k [] ≡ none
unfolding position
position-nil k = refl

contains-nil : (k : NodeId) → Set.contains k [] ≡ false
unfolding Set.contains
contains-nil k = refl

contains-append :
    (k x : NodeId) (xs : List NodeId)
    → Set.contains k (xs ++ x ∷ []) ≡ (Set.contains k xs || ite (string_discrete x k) true false)
unfolding Set.contains
contains-append k x [] = ground arith
contains-append k x (y ∷ xs) = ground (arith, contains-append k x xs)

position-append_old :
    (k x : NodeId) (xs : List NodeId) {i : ℕ}
    → position k xs ≡ some i
    → position k (xs ++ x ∷ []) ≡ some i
unfolding position
position-append_old k x [] h = ground arith
position-append_old k x (y ∷ xs) {i} h = elim (Option-cases (position k xs)) [
  | inl e ↦ ground arith
  | inr (j, e) ↦ ground (arith, position-append_old k x xs e)
]

position-append_new :
    (x : NodeId) (xs : List NodeId)
    → Set.contains x xs ≡ false
    → position x (xs ++ x ∷ []) ≡ some (length xs)
unfolding position Set.contains
position-append_new x [] h = ground arith
position-append_new x (y ∷ xs) h = ground (arith, position-append_new x xs)

-- The queries after an addition.
module _ {s t : SupervisorTree} {name parent : NodeId} {node : TreeNode}
    (added : Added s t name parent node) where
  children_of_added :
      (id : NodeId)
      → children_of t id
        ≡ ite
            (string_discrete name id)
            []
            (ite (string_discrete parent id) (children_of s id ++ name ∷ []) (children_of s id))
  unfolding children_of
  children_of_added id = ground (arith, added.look id, added.childless, added.host.1)

  parent_of_added :
      (id : NodeId) → parent_of t id ≡ ite (string_discrete name id) (some parent) (parent_of s id)
  unfolding parent_of
  parent_of_added id = ground (arith, added.look id, added.placed)

  get_worker_added :
      (id : NodeId)
      → get_worker t id ≡ ite (string_discrete name id) (as_worker (some node)) (get_worker s id)
  unfolding get_worker
  get_worker_added id = ground (arith, added.look id)

  -- Nothing is known of a new name.
  new_unlisted : IsWellFormed s → (id : NodeId) → Set.contains name (children_of s id) ≡ false
  unfolding parent_of
  new_unlisted v id = elim (Bool-cases (Set.contains name (children_of s id))) [
    | inl e ↦ ground (arith, v.listed id name e, added.fresh)
    | inr e ↦ e
  ]

  Rooted-added : {id : NodeId} → Rooted s id → Rooted t id
  unfolding parent_of
  Rooted-added (at_root e) = at_root (ground (arith, added.same_root))
  Rooted-added (below {id} {p} e r) =
      below (ground (arith, parent_of_added id, added.fresh)) (Rooted-added r)

  Rooted-new : IsWellFormed s → Rooted t name
  Rooted-new v =
      below (ground (arith, parent_of_added name))
        (Rooted-added (v.rooted parent (supervisor added.host.0) added.host.1))

  new_childless : children_of s name ≡ []
  unfolding children_of
  new_childless = ground (arith, added.fresh)

  host_not_new : name ≢ parent
  host_not_new e = ground (arith, added.fresh, added.host.1)

  -- A worker that was added stands last.
  abbrev StandsLast : Type 0
  StandsLast =
      (w : WorkerNode)
      → node ≡ worker w
      → (w.parent ≡ parent) × (w.start_index ≡ length (children_of s parent))

  index_added :
      StandsLast
      → IsWellFormed s
      → (id : NodeId) (w : WorkerNode) → get_worker t id ≡ some w
      → position id (children_of t w.parent) ≡ some w.start_index
  index_added last v id w h = elim (string_discrete name id) [
    | yes e ↦
        let made : node ≡ worker w = ground (arith, get_worker_added id, as_worker-eq_some node) in
        ground (
          arith,
          last w made,
          children_of_added w.parent,
          host_not_new,
          position-append_new name (children_of s parent),
          new_unlisted v parent,
        )
    | no e ↦
        let old : get_worker s id ≡ some w = ground (arith, get_worker_added id) in
        ground (
          arith,
          v.index id w old,
          children_of_added w.parent,
          new_childless,
          position-nil id,
          position-append_old id name (children_of s w.parent) (v.index id w old),
        )
  ]

  nodes_below_root : IsWellFormed s → (id : NodeId) (n : TreeNode) → get t id ≡ some n → Rooted t id
  nodes_below_root v id n h = elim (string_discrete name id) [
    | yes e ↦ subst (Rooted t) e (Rooted-new v)
    | no e ↦ elim (Option-cases (get s id)) [
      | inl missing ↦ absurd (ground (arith, added.look id))
      | inr (m, found) ↦ Rooted-added (v.rooted id m found)
    ]
  ]

  top_added :
      IsWellFormed s
      → (n : SupervisorNode) × (get t t.root_id ≡ some (supervisor n)) × (n.parent ≡ none)
  top_added v =
      let (n, found, no_parent) = v.top in
      elim (string_discrete parent s.root_id) [
        | yes e ↦ (
          adopt name n,
          ground (arith, added.look s.root_id, added.same_root, added.fresh),
          no_parent,
        )
        | no e ↦ (n, ground (arith, added.look s.root_id, added.same_root, added.fresh), no_parent)
      ]

  IsWellFormed-added : StandsLast → IsWellFormed s → IsWellFormed t
  IsWellFormed-added last v = record {
    listed = λ id c h. ground (
      arith,
      children_of_added id,
      parent_of_added c,
      v.listed id c,
      new_unlisted v id,
      contains-append c name (children_of s id),
      contains-nil c,
    );
    lists = λ id p h. ground (
      arith,
      children_of_added p,
      parent_of_added id,
      v.lists id p,
      new_childless,
      contains-nil id,
      host_not_new,
      contains-append id name (children_of s p),
    );
    index = index_added last v;
    rooted = nodes_below_root v;
    top = top_added v;
  }

-- If `add_supervisor` succeeds on a well-formed tree, the result is well-formed: parents and lists
-- of children agree, workers' start indices are their positions, and all nodes are below the root.
pub add_supervisor-IsWellFormed :
    (s t : SupervisorTree) (name parent : NodeId) (strategy : RestartStrategy)
    (intensity : RestartIntensity)
    → IsWellFormed s
    → add_supervisor s name parent strategy intensity ≡ ok t
    → IsWellFormed t
add_supervisor-IsWellFormed s t name parent strategy intensity v e =
    IsWellFormed-added (add_supervisor-Added s t name parent strategy intensity e) (λ w made. cc) v

-- If `add_worker` succeeds on a well-formed tree, the result is well-formed.
pub add_worker-IsWellFormed :
    (s t : SupervisorTree) (def : ServiceDef) (parent : NodeId)
    → IsWellFormed s
    → add_worker s def parent ≡ ok t
    → IsWellFormed t
add_worker-IsWellFormed s t def parent v e =
    IsWellFormed-added (add_worker-Added s t def parent e) (λ w made. ground arith) v

-- The tree of a single supervisor is well-formed.
pub new-IsWellFormed :
    (name : String) (strategy : RestartStrategy) (intensity : RestartIntensity)
    → IsWellFormed (new name strategy intensity)
unfolding new children_of parent_of get_worker Map.lookup Map.insert Set.contains
new-IsWellFormed name strategy intensity = record {
  listed = λ id c h. ground arith;
  lists = λ id p h. ground arith;
  index = λ id w h. ground arith;
  rooted = λ id n h. at_root (ground arith);
  top = (root_node name strategy intensity, ground arith, refl);
}
