-- ===== src/Supervisor/Tree/Updates.antt =====
-- Writes to one node: what the queries say afterwards, and that the tree's shape is kept.
use dynamod.Common.{◌≡◌, refl, Option, none, some, arith, ite, string_discrete, string_key}
use mathlib.Core.Option
use dynamod.Common.Map.{lookup-adjust}
use dynamod.Supervisor.Tree.{
  NodeId, TreeNode, SupervisorTree, SupervisorNode, WorkerNode, supervisor, worker, get, get_worker,
  children_of, parent_of, update_worker, update_supervisor, on_worker, on_supervisor, as_worker,
  as_supervisor, parent_in, children_in,
}
use dynamod.Supervisor.Tree.Invariant.{IsWellFormed, Rooted, at_root, below}

-- `t` differs from `s` in no parent and no list of children, and its workers are those of `s`
-- but for fields that are not their place in the tree.
pub record IsReshaped (s t : SupervisorTree) : Type 0 where
  pub same_root : t.root_id ≡ s.root_id
  pub same_children : (id : NodeId) → children_of t id ≡ children_of s id
  pub same_parent : (id : NodeId) → parent_of t id ≡ parent_of s id
  pub old_node :
      (id : NodeId) (n : TreeNode) → get t id ≡ some n → (m : TreeNode) × (get s id ≡ some m)
  pub old_worker :
      (id : NodeId) (w : WorkerNode)
      → get_worker t id ≡ some w
      → (v : WorkerNode) × (get_worker s id ≡ some v)
        × (w.parent ≡ v.parent)
        × (w.start_index ≡ v.start_index)
  pub old_supervisor :
      (id : NodeId) (n : SupervisorNode)
      → get s id ≡ some (supervisor n)
      → (m : SupervisorNode) × (get t id ≡ some (supervisor m)) × (m.parent ≡ n.parent)

module _ {s t : SupervisorTree} (shape : IsReshaped s t) where
  Rooted-reshaped : {id : NodeId} → Rooted s id → Rooted t id
  Rooted-reshaped (at_root e) = at_root (ground (arith, shape.same_root))
  Rooted-reshaped (below {id} {p} e r) =
      below (ground (arith, shape.same_parent id)) (Rooted-reshaped r)

  pub IsReshaped-IsWellFormed : IsWellFormed s → IsWellFormed t
  IsReshaped-IsWellFormed v = record {
    listed = λ id c h. ground (arith, shape.same_children id, shape.same_parent c, v.listed id c);
    lists = λ id p h. ground (arith, shape.same_children p, shape.same_parent id, v.lists id p);
    index = λ id w h.
        let (old, found, same, place) = shape.old_worker id w h in
        ground (arith, shape.same_children w.parent, v.index id old found, same, place);
    rooted =
        λ id n h. let (m, found) = shape.old_node id n h in Rooted-reshaped (v.rooted id m found);
    top =
        let (n, found, above) = v.top in
        let (m, found', same) = shape.old_supervisor s.root_id n found in
        (m, ground (arith, shape.same_root), ground arith);
  }

pub IsReshaped-refl : (s : SupervisorTree) → IsReshaped s s
IsReshaped-refl s = record {
  same_root = refl;
  same_children = λ id. refl;
  same_parent = λ id. refl;
  old_node = λ id n h. (n, h);
  old_worker = λ id w h. (w, h, refl, refl);
  old_supervisor = λ id n h. (n, h, refl);
}

pub IsReshaped-trans : {s t u : SupervisorTree} → IsReshaped s t → IsReshaped t u → IsReshaped s u
IsReshaped-trans {s} {t} {u} a b = record {
  same_root = ground (arith, a.same_root, b.same_root);
  same_children = λ id. ground (arith, a.same_children id, b.same_children id);
  same_parent = λ id. ground (arith, a.same_parent id, b.same_parent id);
  old_node = λ id n h. let (m, e) = b.old_node id n h in a.old_node id m e;
  old_worker = λ id w h.
      let (v, e, p, i) = b.old_worker id w h in
      let (x, e', p', i') = a.old_worker id v e in (x, e', ground arith, ground arith);
  old_supervisor = λ id n h.
      let (m, e, p) = a.old_supervisor id n h in
      let (x, e', p') = b.old_supervisor id m e in (x, e', ground arith);
}

pub get-update_worker :
    (k id : NodeId) (f : WorkerNode → WorkerNode) (s : SupervisorTree)
    → get (update_worker k f s) id
      ≡ ite (string_discrete k id) (Option.map (on_worker f) (get s id)) (get s id)
unfolding update_worker get
get-update_worker k id f s = lookup-adjust k id (on_worker f) s.nodes

pub get-update_supervisor :
    (k id : NodeId) (f : SupervisorNode → SupervisorNode) (s : SupervisorTree)
    → get (update_supervisor k f s) id
      ≡ ite (string_discrete k id) (Option.map (on_supervisor f) (get s id)) (get s id)
unfolding update_supervisor get
get-update_supervisor k id f s = lookup-adjust k id (on_supervisor f) s.nodes

pub get_worker-update_worker :
    (k id : NodeId) (f : WorkerNode → WorkerNode) (s : SupervisorTree)
    → get_worker (update_worker k f s) id
      ≡ ite (string_discrete k id) (Option.map f (get_worker s id)) (get_worker s id)
unfolding get_worker
get_worker-update_worker k id f s = ground (arith, get-update_worker k id f s)

pub get_worker-update_supervisor :
    (k id : NodeId) (f : SupervisorNode → SupervisorNode) (s : SupervisorTree)
    → get_worker (update_supervisor k f s) id ≡ get_worker s id
unfolding get_worker
get_worker-update_supervisor k id f s = ground (arith, get-update_supervisor k id f s)

-- Two nodes of one kind at one place in the tree.
abbrev SamePlace : TreeNode → TreeNode → Type 0
SamePlace (worker v) (worker w) = (w.parent ≡ v.parent) × (w.start_index ≡ v.start_index)
SamePlace (supervisor m) (supervisor n) = (n.parent ≡ m.parent) × (n.children ≡ m.children)
SamePlace _ _ = ⊥

-- What the queries need: at each name both trees have nodes at one place, or none.
abbrev Aligned : Option TreeNode → Option TreeNode → Type 0
Aligned none none = Unit {0}
Aligned (some m) (some n) = SamePlace m n
Aligned _ _ = ⊥

Aligned-parent : (x y : Option TreeNode) → Aligned x y → parent_in y ≡ parent_in x
Aligned-parent none none a = refl
Aligned-parent (some (worker v)) (some (worker w)) a = ground arith
Aligned-parent (some (supervisor m)) (some (supervisor n)) a = ground arith
Aligned-parent none (some y) a = absurd a
Aligned-parent (some (worker v)) (some (supervisor n)) a = absurd a
Aligned-parent (some (supervisor m)) (some (worker w)) a = absurd a
Aligned-parent (some (worker v)) none a = absurd a
Aligned-parent (some (supervisor m)) none a = absurd a

Aligned-children :
    (x y : Option TreeNode)
    → Aligned x y
    → children_in (as_supervisor y) ≡ children_in (as_supervisor x)
Aligned-children none none a = refl
Aligned-children (some (worker v)) (some (worker w)) a = ground arith
Aligned-children (some (supervisor m)) (some (supervisor n)) a = ground arith
Aligned-children none (some y) a = absurd a
Aligned-children (some (worker v)) (some (supervisor n)) a = absurd a
Aligned-children (some (supervisor m)) (some (worker w)) a = absurd a
Aligned-children (some (worker v)) none a = absurd a
Aligned-children (some (supervisor m)) none a = absurd a

Aligned-node :
    (x y : Option TreeNode)
    → Aligned x y
    → (n : TreeNode) → y ≡ some n
    → (m : TreeNode) × (x ≡ some m)
Aligned-node (some m) y a n h = (m, refl)
Aligned-node none none a n h = cc
Aligned-node none (some y) a n h = absurd a

Aligned-worker :
    (x y : Option TreeNode)
    → Aligned x y
    → (w : WorkerNode) → as_worker y ≡ some w
    → (v : WorkerNode) × (as_worker x ≡ some v)
      × (w.parent ≡ v.parent)
      × (w.start_index ≡ v.start_index)
Aligned-worker (some (worker v)) (some (worker y)) a w h = (v, refl, ground arith, ground arith)
Aligned-worker (some (worker v)) (some (supervisor n)) a w h = absurd a
Aligned-worker (some (worker v)) none a w h = absurd a
Aligned-worker (some (supervisor m)) (some (worker y)) a w h = absurd a
Aligned-worker (some (supervisor m)) (some (supervisor n)) a w h = cc
Aligned-worker (some (supervisor m)) none a w h = absurd a
Aligned-worker none none a w h = cc
Aligned-worker none (some y) a w h = absurd a

Aligned-supervisor :
    (x y : Option TreeNode)
    → Aligned x y
    → (n : SupervisorNode) → x ≡ some (supervisor n)
    → (m : SupervisorNode) × (y ≡ some (supervisor m)) × (m.parent ≡ n.parent)
Aligned-supervisor (some (supervisor x)) (some (supervisor m)) a n h = (m, refl, ground arith)
Aligned-supervisor (some (supervisor x)) (some (worker m)) a n h = absurd a
Aligned-supervisor (some (supervisor x)) none a n h = absurd a
Aligned-supervisor (some (worker x)) y a n h = absurd (ground arith)
Aligned-supervisor none y a n h = absurd (ground arith)

module _ (s t : SupervisorTree) (same_root : t.root_id ≡ s.root_id)
    (aligned : (id : NodeId) → Aligned (get s id) (get t id)) where
  reshaped_children : (id : NodeId) → children_of t id ≡ children_of s id
  unfolding children_of
  reshaped_children id = Aligned-children (get s id) (get t id) (aligned id)

  reshaped_parent : (id : NodeId) → parent_of t id ≡ parent_of s id
  unfolding parent_of
  reshaped_parent id = Aligned-parent (get s id) (get t id) (aligned id)

  IsReshaped-aligned : IsReshaped s t
  unfolding get_worker
  IsReshaped-aligned = record {
    same_root = same_root;
    same_children = reshaped_children;
    same_parent = reshaped_parent;
    old_node = λ id n h. Aligned-node (get s id) (get t id) (aligned id) n h;
    old_worker = λ id w h. Aligned-worker (get s id) (get t id) (aligned id) w h;
    old_supervisor = λ id n h. Aligned-supervisor (get s id) (get t id) (aligned id) n h;
  }

pub update_worker-IsReshaped :
    (k : NodeId) (f : WorkerNode → WorkerNode) (s : SupervisorTree)
    → ((w : WorkerNode) → ((f w).parent ≡ w.parent) × ((f w).start_index ≡ w.start_index))
    → IsReshaped s (update_worker k f s)
update_worker-IsReshaped k f s keep =
    IsReshaped-aligned s (update_worker k f s) (unfold update_worker in refl)
      λ id. rw (get-update_worker k id f s) (go id (get s id))
  where
    go :
        (id : NodeId) (x : Option TreeNode)
        → Aligned x (ite (string_discrete k id) (Option.map (on_worker f) x) x)
    go id none = ground arith
    go id (some (worker w)) = ground (arith, keep w)
    go id (some (supervisor m)) = ground arith

pub update_supervisor-IsReshaped :
    (k : NodeId) (f : SupervisorNode → SupervisorNode) (s : SupervisorTree)
    → ((n : SupervisorNode) → ((f n).parent ≡ n.parent) × ((f n).children ≡ n.children))
    → IsReshaped s (update_supervisor k f s)
update_supervisor-IsReshaped k f s keep =
    IsReshaped-aligned s (update_supervisor k f s) (unfold update_supervisor in refl)
      λ id. rw (get-update_supervisor k id f s) (go id (get s id))
  where
    go :
        (id : NodeId) (x : Option TreeNode)
        → Aligned x (ite (string_discrete k id) (Option.map (on_supervisor f) x) x)
    go id none = ground arith
    go id (some (worker w)) = ground arith
    go id (some (supervisor m)) = ground (arith, keep m)
