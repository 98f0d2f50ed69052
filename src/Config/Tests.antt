-- ===== src/Config/Tests.antt =====
-- Validation of small configurations, and the theorem at one of them.
use dynamod.Common.{◌≡◌, refl, ◌++◌, some, arith, List, [], ◌∷◌, string_discrete, string_key}
use dynamod.Common.Set
use dynamod.Common.Text.{trim}
use dynamod.Config.Duration.{parse_seconds, parse_seconds-written}
use dynamod.Common.Set.{Distinct}
use dynamod.Config.Service.{ServiceDef}
use dynamod.Config.Sample.{service}
use dynamod.Config.Validate.{
  validate_all, service_names_of, supervisor_names_of, unknown_dependency, duplicate_service,
}
use dynamod.Config.Validate.Known.{AllRequire, validate_all-known}

-- What a run of the code computes with.
program : Unit {0}
unfolding validate_all Set.contains Set.insert string_discrete
program = tt

missing_requirement :
    validate_all (service "b" ("a" ∷ []) [] ∷ []) [] ≡ unknown_dependency "b" "a" ∷ []
unfolding program
missing_requirement = refl

repeated_name :
    validate_all (service "a" [] [] ∷ service "a" [] [] ∷ []) [] ≡ duplicate_service "a" ∷ []
unfolding program
repeated_name = refl

-- Two services, of which the second requires the first.
abbrev two : List ServiceDef
two = service "a" [] [] ∷ service "b" ("a" ∷ []) [] ∷ []

validate_all-known_example :
    Distinct (service_names_of two)
    × Distinct (supervisor_names_of [])
    × AllRequire (service_names_of two) two
unfolding program
validate_all-known_example = validate_all-known two [] refl

parse_seconds-written_example : parse_seconds (trim (b'9' ∷ b'0' ∷ [] ++ b'm' ∷ [])) ≡ some 5400
parse_seconds-written_example =
    parse_seconds-written b'9' (b'0' ∷ []) b'm' 60 (refl, (refl, tt)) (omega arith) refl
