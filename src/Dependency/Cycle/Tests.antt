-- ===== src/Dependency/Cycle/Tests.antt =====
-- Searches for cycles in small graphs, as in the tests of cycle.rs.
use dynamod.Common.{◌≡◌, refl, List, [], ◌∷◌, some, string_discrete, string_key}
use dynamod.Common.Map
use dynamod.Common.Set
use dynamod.Config.Service.{ServiceDef}
use dynamod.Config.Sample.{service}
use dynamod.Dependency.Graph.{build, dependencies_of}
use dynamod.Dependency.Cycle.{detect_cycles}

abbrev diamond : List ServiceDef
diamond =
    service "a" [] []
    ∷ service "b" ("a" ∷ []) []
    ∷ service "c" ("a" ∷ []) []
    ∷ service "d" ("b" ∷ "c" ∷ []) []
    ∷ []

abbrev triangle : List ServiceDef
triangle = service "a" ("c" ∷ []) [] ∷ service "b" ("a" ∷ []) [] ∷ service "c" ("b" ∷ []) [] ∷ []

program : Unit {0}
unfolding build dependencies_of Map.lookup Map.insert Map.adjust Set.contains Set.insert
    string_discrete detect_cycles
program = tt

diamond_has_none : detect_cycles (build diamond) ≡ some []
unfolding program
diamond_has_none = refl

triangle_is_found : detect_cycles (build triangle) ≡ some (("a" ∷ "c" ∷ "b" ∷ []) ∷ [])
unfolding program
triangle_is_found = refl
