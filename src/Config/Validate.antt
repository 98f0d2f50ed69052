-- ===== src/Config/Validate.antt =====
-- rust/dynamod-svmgr/src/config/validate.rs: the checks on definitions before start-up.
pub mod Known
use dynamod.Common.{
  String, Bool, true, false, ◌&&◌, ◌||◌, List, [], ◌∷◌, ◌++◌, Option, none, some, ite,
  if◌then◌else◌, string_discrete, string_key,
}
use dynamod.Common.Set
use dynamod.Config.Service.{ServiceDef, ReadinessType, tcp_port, exec}
use dynamod.Config.Supervisor.{SupervisorDef}

pub data ValidationError : Type 0 where
  empty_exec missing_port missing_check_exec : String → ValidationError
  unknown_supervisor unknown_dependency : String → String → ValidationError
  duplicate_service duplicate_supervisor : String → ValidationError

-- `if test { errors.push(e) }`: what the statement adds.
abbrev report : Bool → ValidationError → List ValidationError
report true e = e ∷ []
report false e = []

abbrev is_empty {ℓ} : {A : Type ℓ} → List A → Bool
is_empty [] = true
is_empty (_ ∷ _) = false

abbrev is_none {ℓ} : {A : Type ℓ} → Option A → Bool
is_none none = true
is_none (some _) = false

abbrev is_tcp_port : ReadinessType → Bool
is_tcp_port tcp_port = true
is_tcp_port _ = false

abbrev is_exec : ReadinessType → Bool
is_exec exec = true
is_exec _ = false

pub validate_service : ServiceDef → List ValidationError
validate_service def =
    let name = def.service.name in
    report (is_empty def.service.exec) (empty_exec name)
    ++ (report (is_tcp_port def.readiness.readiness_type && is_none def.readiness.port)
          (missing_port name)
        ++ report (is_exec def.readiness.readiness_type && is_none def.readiness.check_exec)
            (missing_check_exec name))

-- The names seen, and an error for each that was seen before.
pub check_names :
    (String → ValidationError) → List String → List String → List String × List ValidationError
check_names duplicate [] seen = (seen, [])
check_names duplicate (n ∷ ns) seen =
    let rest = check_names duplicate ns (Set.insert n seen) in
    (rest.0, report (Set.contains n seen) (duplicate n) ++ rest.1)

pub check_requires : String → List String → List String → List ValidationError
check_requires service names [] = []
check_requires service names (dep ∷ deps) =
    (if Set.contains dep names then [] else unknown_dependency service dep ∷ [])
    ++ check_requires service names deps

-- The body of the loop over the services.
pub check_service : List String → List String → ServiceDef → List ValidationError
check_service service_names supervisor_names svc =
    validate_service svc
    ++ ((if ite (string_discrete svc.service.supervisor "root") true false
            || Set.contains svc.service.supervisor supervisor_names
          then []
          else unknown_supervisor svc.service.name svc.service.supervisor ∷ [])
        ++ check_requires svc.service.name service_names svc.dependencies.requires)

check_services : List String → List String → List ServiceDef → List ValidationError
check_services service_names supervisor_names [] = []
check_services service_names supervisor_names (svc ∷ services) =
    check_service service_names supervisor_names svc
    ++ check_services service_names supervisor_names services

abbrev pub service_names_of : List ServiceDef → List String
service_names_of [] = []
service_names_of (d ∷ ds) = d.service.name ∷ service_names_of ds

abbrev pub supervisor_names_of : List SupervisorDef → List String
supervisor_names_of [] = []
supervisor_names_of (d ∷ ds) = d.supervisor.name ∷ supervisor_names_of ds

unfoldable pub validate_all : List ServiceDef → List SupervisorDef → List ValidationError
unfolding validate_service check_names check_requires check_service check_services
validate_all services supervisors =
    let (service_names, repeated) = check_names duplicate_service (service_names_of services) [] in
    let (supervisor_names, repeated_supervisors) =
      check_names duplicate_supervisor (supervisor_names_of supervisors) [] in
    repeated ++ (repeated_supervisors ++ check_services service_names supervisor_names services)
