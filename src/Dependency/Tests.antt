-- ===== src/Dependency/Tests.antt =====
-- Runs of the dependency code on small graphs, and its theorems at them.
use dynamod.Common.{
  String, ◌≡◌, refl, true, false, ◌||◌, List, [], ◌∷◌, some, unwrap_or, string_discrete, string_key,
  arith,
}
use dynamod.Common.Map
use dynamod.Common.Set
use dynamod.Common.Set.{Distinct}
use dynamod.Config.Service.{ServiceDef}
use dynamod.Config.Sample.{service}
use dynamod.Dependency.Graph.{build, dependencies_of, dependents_of, requires_of, unmet_count}
use dynamod.Dependency.Graph.Build.{declared, declared_requires}
use dynamod.Dependency.Frontier.{
  StartupFrontier, new, take_ready, mark_ready, mark_failed, is_complete, has_ready, has_pending,
}
use dynamod.Dependency.Frontier.Failed.{mark_failed-returns}
use dynamod.Dependency.Frontier.Order.{
  Reach, started, next, taking, readied, failed, starts_in_order, requirements_are_ready,
  none_forgotten, failure_spreads, takes_fresh_services,
}
use dynamod.Dependency.Graph.Declared.{build-declared, named}

-- `b` requires `a`, and `c` is after `b`.
abbrev chain : List ServiceDef
chain = service "a" [] [] ∷ service "b" ("a" ∷ []) [] ∷ service "c" [] ("b" ∷ []) ∷ []

program : Unit {0}
unfolding build dependencies_of dependents_of requires_of Map.lookup Map.insert Map.adjust
    Set.contains Set.insert Set.remove string_discrete unmet_count named new take_ready mark_ready
    mark_failed is_complete has_ready has_pending declared declared_requires
program = tt

dependents_of_a : dependents_of (build chain) "a" ≡ "b" ∷ []
unfolding program
dependents_of_a = refl

unmet_count_c : unmet_count (build chain) "c" [] ≡ 1
unfolding program
unmet_count_c = refl

build-declared_example : Set.contains "d" (build chain).services ≡ false
unfolding program
build-declared_example = (build-declared chain).0 "d"

abbrev taken : StartupFrontier
taken = (take_ready (new (build chain))).0

-- `a` is ready and `b` queued; or else `a` has failed.
abbrev after_a : StartupFrontier
after_a = mark_ready "a" (build chain) taken

abbrev without_a : StartupFrontier
without_a = unwrap_or (mark_failed "a" (build chain) taken) taken

first_batch : (take_ready (new (build chain))).1 ≡ "a" ∷ []
unfolding program
first_batch = refl

second_batch : (take_ready after_a).1 ≡ "b" ∷ []
unfolding program
second_batch = refl

b_is_blocked : without_a.blocked ≡ "b" ∷ []
unfolding program
b_is_blocked = refl

-- With `b` blocked twice in the sum, start-up counts as complete although `c` never ran.
complete_too_early : is_complete without_a ≡ true
unfolding program
complete_too_early = refl

taken_reached : Reach (build chain) taken
taken_reached = next (new (build chain)) taken started (taking (new (build chain)))

after_a_reached : Reach (build chain) after_a
unfolding program
after_a_reached = next taken after_a taken_reached (readied "a" taken refl)

without_a_reached : Reach (build chain) without_a
unfolding program
without_a_reached = next taken without_a taken_reached (failed "a" taken without_a refl refl)

mark_failed-returns_example : (r : StartupFrontier) × (mark_failed "a" (build chain) taken ≡ some r)
mark_failed-returns_example = mark_failed-returns "a" (build chain) taken

starts_in_order_example :
    (Set.contains "a" after_a.completed ≡ true) × (Set.contains "a" after_a.blocked ≡ false)
unfolding program
starts_in_order_example = starts_in_order chain after_a after_a_reached "b" "a" refl refl

requirements_are_ready_example : Set.contains "a" after_a.ready ≡ true
unfolding program
requirements_are_ready_example =
    requirements_are_ready chain after_a after_a_reached "b" "a" refl refl

-- `d` requires `b`, which requires `a`.
abbrev longer : List ServiceDef
longer = service "a" [] [] ∷ service "b" ("a" ∷ []) [] ∷ service "d" ("b" ∷ []) [] ∷ []

abbrev longer_taken : StartupFrontier
longer_taken = (take_ready (new (build longer))).0

abbrev longer_without_a : StartupFrontier
longer_without_a = unwrap_or (mark_failed "a" (build longer) longer_taken) longer_taken

longer_reached : Reach (build longer) longer_without_a
unfolding program
longer_reached =
    next longer_taken longer_without_a
      (next (new (build longer)) longer_taken started (taking (new (build longer))))
      (failed "a" longer_taken longer_without_a refl refl)

failure_spreads_example :
    (Set.contains "d" longer_without_a.blocked ≡ true)
    × ((Set.contains "d" longer_without_a.ready_to_start
          || Set.contains "d" longer_without_a.pending)
        ≡ false)
unfolding program
failure_spreads_example = failure_spreads longer longer_without_a longer_reached "d" "b" refl refl

takes_fresh_services_example :
    Distinct (take_ready after_a).1
    × (named "b" chain ≡ true)
    × (Set.contains "b" after_a.pending ≡ false)
    × (Set.contains "b" after_a.completed ≡ false)
    × (Set.contains "b" after_a.blocked ≡ false)
unfolding program
takes_fresh_services_example = takes_fresh_services chain after_a after_a_reached "b" refl

-- A service without dependencies.
abbrev alone : List ServiceDef
alone = service "a" [] [] ∷ []

alone_waits_for_none : (d : String) → declared alone (build alone).services "a" d ≡ false
unfolding program
alone_waits_for_none d = ground arith

none_forgotten_example :
    (Set.contains "a" (new (build alone)).ready_to_start
      || (Set.contains "a" (new (build alone)).pending
          || Set.contains "a" (new (build alone)).completed))
    ≡ true
unfolding program
none_forgotten_example =
    none_forgotten alone (new (build alone)) started "a" refl refl
      (λ d e. absurd (ground (arith, alone_waits_for_none d, e)))
