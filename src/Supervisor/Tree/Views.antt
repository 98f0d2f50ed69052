-- ===== src/Supervisor/Tree/Views.antt =====
-- What `add_supervisor` and `add_worker` change, seen through the tree's queries.
use dynamod.Common.{
  ◌≡◌, refl, [], Option, none, some, arith, ite, subst, string_discrete, string_key,
}
use mathlib.Core.Option
use dynamod.Common.Map
use dynamod.Common.Lists.{length}
use dynamod.Common.Map.{lookup-insert, lookup-adjust}
use dynamod.Config.Supervisor.{RestartStrategy}
use dynamod.Config.Service.{ServiceDef}
use dynamod.Supervisor.Intensity.{RestartIntensity}
use dynamod.Supervisor.Tree.{
  NodeId, TreeNode, SupervisorTree, SupervisorNode, supervisor, worker, ok, get, children_of,
  add_node, add_supervisor, add_worker, as_supervisor, parent_in, children_in, adopt, on_supervisor,
  new_supervisor, new_worker,
}

-- `t` is `s` with a new last child `name` of the supervisor `parent`.
pub record Added (s t : SupervisorTree) (name parent : NodeId) (node : TreeNode) : Type 0 where
  pub fresh : get s name ≡ none
  pub host : (n : SupervisorNode) × (get s parent ≡ some (supervisor n))
  pub childless : children_in (as_supervisor (some node)) ≡ []
  pub placed : parent_in (some node) ≡ some parent
  pub same_root : t.root_id ≡ s.root_id
  pub same_pids : t.pid_map ≡ s.pid_map
  pub look :
      (id : NodeId)
      → get t id
        ≡ ite (string_discrete name id) (some node) (
            ite
              (string_discrete parent id)
              (Option.map (on_supervisor (adopt name)) (get s id))
              (get s id))

get-add_node :
    (s : SupervisorTree) (name parent : NodeId) (node : TreeNode) (id : NodeId)
    → get (add_node s name parent node) id
      ≡ ite (string_discrete name id) (some node) (
          ite
            (string_discrete parent id)
            (Option.map (on_supervisor (adopt name)) (get s id))
            (get s id))
unfolding add_node get
get-add_node s name parent node id =
    rw (lookup-insert name id node (Map.adjust parent (on_supervisor (adopt name)) s.nodes))
      (rw (lookup-adjust parent id (on_supervisor (adopt name)) s.nodes) refl)

Added-add_node :
    (s : SupervisorTree) (name parent : NodeId) (node : TreeNode) (n : SupervisorNode)
    → get s name ≡ none
    → get s parent ≡ some (supervisor n)
    → children_in (as_supervisor (some node)) ≡ []
    → parent_in (some node) ≡ some parent
    → Added s (add_node s name parent node) name parent node
Added-add_node s name parent node n fresh host childless placed = record {
  fresh = fresh;
  host = (n, host);
  childless = childless;
  placed = placed;
  same_root = unfold add_node in refl;
  same_pids = unfold add_node in refl;
  look = get-add_node s name parent node;
}

pub add_supervisor-Added :
    (s t : SupervisorTree) (name parent : NodeId) (strategy : RestartStrategy)
    (intensity : RestartIntensity)
    → add_supervisor s name parent strategy intensity ≡ ok t
    → Added s t name parent (supervisor (new_supervisor name parent strategy intensity))
unfolding add_supervisor
add_supervisor-Added s t name parent strategy intensity e = go (get s name) (get s parent) refl refl
  where
    node : TreeNode
    node = supervisor (new_supervisor name parent strategy intensity)

    go :
        (here above : Option TreeNode)
        → get s name ≡ here
        → get s parent ≡ above
        → Added s t name parent node
    go none (some (supervisor n)) fresh host =
        let made : add_node s name parent node ≡ t = ground arith in
        subst (λ t'. Added s t' name parent node) made
          (Added-add_node s name parent node n fresh host refl refl)
    go none (some (worker w)) fresh host = ground arith
    go none none fresh host = ground arith
    go (some n) above taken host = ground arith

pub add_worker-Added :
    (s t : SupervisorTree) (def : ServiceDef) (parent : NodeId)
    → add_worker s def parent ≡ ok t
    → Added s t def.service.name parent
        (worker (new_worker def parent (length (children_of s parent))))
unfolding add_worker children_of
add_worker-Added s t def parent e = go (get s def.service.name) (get s parent) refl refl
  where
    node : TreeNode
    node = worker (new_worker def parent (length (children_of s parent)))

    go :
        (here above : Option TreeNode)
        → get s def.service.name ≡ here
        → get s parent ≡ above
        → Added s t def.service.name parent node
    go none (some (supervisor n)) fresh host =
        let made : add_node s def.service.name parent node ≡ t = ground arith in
        subst (λ t'. Added s t' def.service.name parent node) made
          (Added-add_node s def.service.name parent node n fresh host refl refl)
    go none (some (worker w)) fresh host = ground arith
    go none none fresh host = ground arith
    go (some n) above taken host = ground arith
