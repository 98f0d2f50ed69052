-- ===== src/Config/Validate/Known.antt =====
-- What holds of definitions in which validation finds no error.
use dynamod.Common.{
  String, ◌≡◌, refl, true, false, ◌||◌, List, [], ◌∷◌, ◌++◌, arith, string_key, if◌then◌else◌,
}
use dynamod.Common.Set
use dynamod.Common.Set.{Distinct, contains-insert}
use dynamod.Config.Service.{ServiceDef}
use dynamod.Config.Supervisor.{SupervisorDef}
use dynamod.Config.Validate.{
  ValidationError, check_names, check_requires, check_service, check_services, validate_all,
  service_names_of, supervisor_names_of, duplicate_service, report, unknown_dependency,
  duplicate_supervisor,
}

append_empty : (xs ys : List ValidationError) → xs ++ ys ≡ [] → (xs ≡ []) × (ys ≡ [])
append_empty [] ys h = (refl, h)
append_empty (x ∷ xs) ys h = absurd (cc)

contains-check_names :
    (e : String → ValidationError) (ns seen : List String) (k : String)
    → Set.contains k (check_names e ns seen).0 ≡ (Set.contains k ns || Set.contains k seen)
unfolding check_names Set.contains
contains-check_names e [] seen k = refl
contains-check_names e (n ∷ ns) seen k =
    ground (arith, contains-check_names e ns (Set.insert n seen) k, contains-insert n k seen)

names_parts :
    (e : String → ValidationError) (n : String) (ns seen : List String)
    → (check_names e (n ∷ ns) seen).1 ≡ []
    → (Set.contains n seen ≡ false) × ((check_names e ns (Set.insert n seen)).1 ≡ [])
unfolding check_names
names_parts e n ns seen h =
    let parts =
      append_empty (report (Set.contains n seen) (e n)) (check_names e ns (Set.insert n seen)).1
        h in
    (ground (arith, parts.0), parts.1)

-- Names without an error are new, each of them.
check_names-new :
    (e : String → ValidationError) (ns seen : List String)
    → (check_names e ns seen).1 ≡ []
    → (k : String) → Set.contains k ns ≡ true
    → Set.contains k seen ≡ false
unfolding check_names Set.contains
check_names-new e [] seen h k there = absurd (cc)
check_names-new e (n ∷ ns) seen h k there =
    let (fine, rest) = names_parts e n ns seen h in
    ground (arith, fine, check_names-new e ns (Set.insert n seen) rest k, contains-insert n k seen)

check_names-Distinct :
    (e : String → ValidationError) (ns seen : List String)
    → (check_names e ns seen).1 ≡ []
    → Distinct ns
unfolding check_names Set.contains
check_names-Distinct e [] seen h = tt
check_names-Distinct e (n ∷ ns) seen h =
    let (fine, rest) = names_parts e n ns seen h in
    (
      ground (arith, check_names-new e ns (Set.insert n seen) rest n, contains-insert n n seen),
      check_names-Distinct e ns (Set.insert n seen) rest,
    )

-- Every one of the first names is among the second.
abbrev pub IsSubset : List String → List String → Type 0
IsSubset [] names = Unit
IsSubset (d ∷ deps) names = (Set.contains d names ≡ true) × IsSubset deps names

check_requires-IsSubset :
    (service : String) (names known deps : List String)
    → ((k : String) → Set.contains k names ≡ Set.contains k known)
    → check_requires service names deps ≡ []
    → IsSubset deps known
unfolding check_requires
check_requires-IsSubset service names known [] same h = tt
check_requires-IsSubset service names known (d ∷ deps) same h =
    let (this, rest) =
      append_empty (if Set.contains d names then [] else unknown_dependency service d ∷ [])
        (check_requires service names deps) h in
    (ground (arith, this, same d), check_requires-IsSubset service names known deps same rest)

check_service-requires :
    (names supervisors : List String) (def : ServiceDef)
    → check_service names supervisors def ≡ []
    → check_requires def.service.name names def.dependencies.requires ≡ []
unfolding check_service
check_service-requires names supervisors def h = (append_empty _ _ (append_empty _ _ h).1).1

-- Every requirement of the services, in order, is one of the names.
abbrev pub AllRequire : List String → List ServiceDef → Type 0
AllRequire names [] = Unit
AllRequire names (def ∷ defs) = IsSubset def.dependencies.requires names × AllRequire names defs

check_services-AllRequire :
    (names supervisors known : List String) (defs : List ServiceDef)
    → ((k : String) → Set.contains k names ≡ Set.contains k known)
    → check_services names supervisors defs ≡ []
    → AllRequire known defs
unfolding check_services
check_services-AllRequire names supervisors known [] same h = tt
check_services-AllRequire names supervisors known (def ∷ defs) same h =
    let (this, rest) = append_empty _ _ h in
    (
      check_requires-IsSubset def.service.name names known def.dependencies.requires same
          (check_service-requires names supervisors def this),
      check_services-AllRequire names supervisors known defs same rest,
    )

-- If validation finds no error, then no two services have one name, no two supervisors have one
-- name, and whatever any of the services requires is the name of a service.
pub validate_all-known :
    (services : List ServiceDef) (supervisors : List SupervisorDef)
    → validate_all services supervisors ≡ []
    → Distinct (service_names_of services)
      × Distinct (supervisor_names_of supervisors)
      × AllRequire (service_names_of services) services
unfolding validate_all Set.contains
validate_all-known services supervisors h =
    let names = check_names duplicate_service (service_names_of services) [] in
    let groups = check_names duplicate_supervisor (supervisor_names_of supervisors) [] in
    let checks = check_services names.0 groups.0 services in
    let (unique, rest) = append_empty names.1 (groups.1 ++ checks) h in
    let (unique', sound) = append_empty groups.1 checks rest in
    (
      check_names-Distinct duplicate_service (service_names_of services) [] unique,
      check_names-Distinct duplicate_supervisor (supervisor_names_of supervisors) [] unique',
      check_services-AllRequire names.0 groups.0 (service_names_of services) services
          (λ k.
            ground (arith, contains-check_names duplicate_service (service_names_of services) [] k))
          sound,
    )
