-- ===== src/Shutdown.antt =====
-- rust/dynamod-svmgr/src/shutdown.rs: the order in which services are stopped, and their signals.
pub mod Complete
mod Tests
use dynamod.Common.{
  ℕ, zero, suc, ◌+◌, ◌-◌, String, Bool, true, false, not, ◌&&◌, List, [], ◌∷◌, ◌++◌, Option, none,
  some, if◌then◌else◌, ◌==◌, string_discrete, string_key, ite,
}
use mathlib.Core.Option
use dynamod.Common.Map
use dynamod.Common.Map.{Map}
use dynamod.Common.Set
use dynamod.Common.Lists.{length}
use dynamod.Dependency.Graph.{DependencyGraph, dependencies_of, dependents_of, all_services}
use dynamod.Dependency.Frontier.{block_work}

-- The local variables of `compute_reverse_topo_order`.
pub record Kahn : Type 0 where
  pub forward_in_degree : Map String ℕ
  pub queue : List String
  pub forward_order : List String
  pub visited : List String

in_degrees : DependencyGraph → List String → Map String ℕ → Map String ℕ
in_degrees g [] degrees = degrees
in_degrees g (svc ∷ services) degrees =
    in_degrees g services (Map.insert svc (length (dependencies_of g svc)) degrees)

sources : Map String ℕ → List String
sources [] = []
sources ((svc, deg) ∷ degrees) = let rest = sources degrees in if deg == 0 then svc ∷ rest else rest

-- The body of the loop over the dependents of a service.
count_down : String → Kahn → Kahn
count_down dependent k = elim (Map.lookup dependent k.forward_in_degree) [
  | none ↦ k
  | some deg ↦ record k {
    forward_in_degree = Map.adjust dependent (λ d. d - 1) k.forward_in_degree;
    queue =
        if (deg - 1 == 0) && not (Set.contains dependent k.visited)
        then k.queue ++ dependent ∷ []
        else k.queue;
  }
]

count_down_all : List String → Kahn → Kahn
unfolding count_down
count_down_all [] k = k
count_down_all (d ∷ ds) k = count_down_all ds (count_down d k)

abbrev visit : String → List String → Kahn → Kahn
visit svc queue k = record k {
  queue = queue;
  visited = Set.insert svc k.visited;
  forward_order = k.forward_order ++ svc ∷ [];
}

-- `while let Some(svc) = queue.pop_front()`, on the queue of `k`; `none` if the fuel runs out.
drain : ℕ → DependencyGraph → List String → Kahn → Option Kahn
unfolding count_down_all
drain fuel g [] k = some k
drain zero g (svc ∷ queue) k = none
drain (suc fuel) g (svc ∷ queue) k =
    let next = count_down_all (dependents_of g svc) (visit svc queue k) in
    elim (Set.contains svc k.visited) [
      | true ↦ drain fuel g queue k
      | false ↦ drain fuel g next.queue next
    ]

-- Services that were not reached follow those that were.
append_unreached : List String → List String → List String → List String
append_unreached [] visited order = order
append_unreached (svc ∷ services) visited order =
    append_unreached services visited
      (if not (Set.contains svc visited) then order ++ svc ∷ [] else order)

reverse_onto : List String → List String → List String
reverse_onto [] done = done
reverse_onto (svc ∷ order) done = reverse_onto order (svc ∷ done)

start : DependencyGraph → Kahn
unfolding in_degrees sources
start g =
    let degrees = in_degrees g (all_services g) [] in
    record {
      forward_in_degree = degrees;
      queue = sources degrees;
      forward_order = [];
      visited = [];
    }

abbrev drain_fuel : DependencyGraph → ℕ
drain_fuel g = length (start g).queue + block_work [] g.reverse_deps

unfoldable pub compute_reverse_topo_order : DependencyGraph → Option (List String)
unfolding drain append_unreached reverse_onto start
compute_reverse_topo_order g =
    Option.map (λ k. reverse_onto (append_unreached (all_services g) k.visited k.forward_order) [])
      (drain (drain_fuel g) g (start g).queue (start g))

pub data Signal : Type 0 where
  sigterm sigint sigquit sighup sigusr1 sigusr2 : Signal

abbrev named : String → String → Bool
named a b = ite (string_discrete a b) true false

unfoldable pub parse_signal : String → Signal
parse_signal name =
    if named name "SIGTERM"
    then sigterm
    else if named name "sigterm"
    then sigterm
    else if named name "SIGINT"
    then sigint
    else if named name "sigint"
    then sigint
    else if named name "SIGQUIT"
    then sigquit
    else if named name "sigquit"
    then sigquit
    else if named name "SIGHUP"
    then sighup
    else if named name "sighup"
    then sighup
    else if named name "SIGUSR1"
    then sigusr1
    else if named name "sigusr1"
    then sigusr1
    else if named name "SIGUSR2"
    then sigusr2
    else if named name "sigusr2"
    then sigusr2
    else sigterm
