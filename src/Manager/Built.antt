-- ===== src/Manager/Built.antt =====
-- The tree that the manager builds from the definitions.
use dynamod.Common.{◌≡◌, refl, List, [], ◌∷◌, ite, string_discrete}
use dynamod.Config.Service.{ServiceDef}
use dynamod.Config.Supervisor.{SupervisorDef, one_for_one}
use dynamod.Supervisor.Tree.{SupervisorTree, Result, ok, err, add_worker, update_supervisor}
use dynamod.Supervisor.Tree.Invariant.{
  IsWellFormed, add_supervisor-IsWellFormed, add_worker-IsWellFormed, new-IsWellFormed,
}
use dynamod.Supervisor.Tree.Updates.{IsReshaped-IsWellFormed, update_supervisor-IsReshaped}
use dynamod.Manager.Requests.{
  otherwise, added, add_definition, add_definitions, parent_id, add_services, build_tree,
  configure_root,
}

otherwise-IsWellFormed :
    (t : SupervisorTree) (r : Result SupervisorTree)
    → IsWellFormed t
    → ((t' : SupervisorTree) → r ≡ ok t' → IsWellFormed t')
    → IsWellFormed (otherwise t r)
otherwise-IsWellFormed t (ok t') v h = h t' refl
otherwise-IsWellFormed t (err e) v h = v

either :
    {A : Type 0} (d : Dec A) (t t' : SupervisorTree)
    → IsWellFormed t
    → IsWellFormed t'
    → IsWellFormed (ite d t t')
either (yes a) t t' v v' = v
either (no n) t t' v v' = v'

add_definition-IsWellFormed :
    (def : SupervisorDef) (t : SupervisorTree)
    → IsWellFormed t
    → IsWellFormed (add_definition def t)
unfolding add_definition
add_definition-IsWellFormed def t v =
    either (string_discrete def.supervisor.name "root")
      (update_supervisor "root" (configure_root def) t) (otherwise t (added def t))
      (IsReshaped-IsWellFormed
        (update_supervisor-IsReshaped "root" (configure_root def) t (λ n. (refl, refl))) v)
      (otherwise-IsWellFormed t (added def t) v
        (λ t' h. add_supervisor-IsWellFormed t t' def.supervisor.name _ _ _ v h))

add_definitions-IsWellFormed :
    (defs : List SupervisorDef) (t : SupervisorTree)
    → IsWellFormed t
    → IsWellFormed (add_definitions defs t)
unfolding add_definitions
add_definitions-IsWellFormed [] t v = v
add_definitions-IsWellFormed (def ∷ defs) t v =
    add_definitions-IsWellFormed defs (add_definition def t) (add_definition-IsWellFormed def t v)

add_services-IsWellFormed :
    (defs : List ServiceDef) (t : SupervisorTree)
    → IsWellFormed t
    → IsWellFormed (add_services defs t)
unfolding add_services
add_services-IsWellFormed [] t v = v
add_services-IsWellFormed (def ∷ defs) t v = add_services-IsWellFormed defs _ (
    otherwise-IsWellFormed t (add_worker t def (parent_id def t)) v
      (λ t' h. add_worker-IsWellFormed t t' def (parent_id def t) v h))

-- The tree that the manager builds is well-formed whatever the definitions say, also with repeated
-- names, unknown parents, services named as parents, and a definition of the root.
pub build_tree-IsWellFormed :
    (supervisor_defs : List SupervisorDef) (services : List ServiceDef)
    → IsWellFormed (build_tree supervisor_defs services)
unfolding build_tree
build_tree-IsWellFormed supervisor_defs services =
    add_services-IsWellFormed services _
      (add_definitions-IsWellFormed supervisor_defs _ (new-IsWellFormed "root" one_for_one _))
