-- ===== src/Shutdown/Tests.antt =====
-- Stop orders of small graphs, and the theorem at one of them.
use dynamod.Common.{String, ◌≡◌, refl, true, List, [], ◌∷◌, some, string_discrete, string_key}
use dynamod.Common.Map
use dynamod.Common.Set
use dynamod.Dependency.Graph.{build, dependencies_of, dependents_of}
use dynamod.Dependency.Frontier.{block_work}
use dynamod.Config.Sample.{service}
use dynamod.Config.Service.{ServiceDef}
use dynamod.Shutdown.{compute_reverse_topo_order, parse_signal, sighup, sigterm}
use dynamod.Shutdown.Complete.{compute_reverse_topo_order_complete}

-- `b` requires `a`, and `c` requires `b`; and two services that require each other.
abbrev line : List ServiceDef
line = service "a" [] [] ∷ service "b" ("a" ∷ []) [] ∷ service "c" ("b" ∷ []) [] ∷ []

abbrev ring : List ServiceDef
ring = service "a" ("b" ∷ []) [] ∷ service "b" ("a" ∷ []) [] ∷ []

-- What a run of the code computes with.
program : Unit {0}
unfolding build dependencies_of dependents_of Map.lookup Map.insert Map.adjust Set.contains
    Set.insert string_discrete compute_reverse_topo_order block_work parse_signal
program = tt

dependents_stop_first : compute_reverse_topo_order (build line) ≡ some ("c" ∷ "b" ∷ "a" ∷ [])
unfolding program
dependents_stop_first = refl

ring_is_stopped : compute_reverse_topo_order (build ring) ≡ some ("b" ∷ "a" ∷ [])
unfolding program
ring_is_stopped = refl

hang_up : parse_signal "sighup" ≡ sighup
unfolding program
hang_up = refl

unknown_signal : parse_signal "unknown" ≡ sigterm
unfolding program
unknown_signal = refl

compute_reverse_topo_order_complete_example :
    (order : List String) × (compute_reverse_topo_order (build ring) ≡ some order)
    × (Set.contains "a" order ≡ true)
unfolding program
compute_reverse_topo_order_complete_example =
    compute_reverse_topo_order_complete (build ring) "a" refl
