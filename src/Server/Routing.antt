-- ===== src/Server/Routing.antt =====
-- The routes: the decorators of app/routes, the prefixes of the routers, and the order in which
-- `create_app` of app/main.py includes them. A path is compared part by part between
-- its slashes; a parameter takes any part that is not empty.
use vista_authen.Prelude.{
  ◌≡◌, String, Bool, true, false, not, ◌&&◌, Option, some, List, [], ◌∷◌, ◌++◌, map, ◌==◌,
  String_eq, find,
}
use vista_authen.Python.Strings.{is_empty}

pub data Method : Type 0 where
  get post patch delete : Method

pub data Part : Type 0 where
  fixed : String → Part
  parameter : Part

-- the functions that answer
pub data Endpoint : Type 0 where
  create_unit list_units get_unit update_unit_capacity delete_unit : Endpoint
  provision_resident register_device revoke_resident update_resident_contact : Endpoint
  get_resident list_residents_by_unit : Endpoint
  create_checker list_checkers update_checker admin_login checker_login : Endpoint
  verify_qr list_audit_logs trigger_cleanup health_check : Endpoint

pub record Route : Type 0 where
  pub method : Method
  pub path : List Part
  pub endpoint : Endpoint

abbrev route : Method → List Part → Endpoint → Route
route method path endpoint = record { method = method; path = path; endpoint = endpoint }

-- `APIRouter(prefix=…)` and `include_router(…, prefix=…)`
abbrev under : List Part → List Route → List Route
under prefix routes = map (λ (r : Route). record r { path = prefix ++ r.path }) routes

abbrev pub units_router : List Route
units_router = under (fixed "units" ∷ []) (
    route post [] create_unit
    ∷ route get [] list_units
    ∷ route get (parameter ∷ []) get_unit
    ∷ route patch (parameter ∷ []) update_unit_capacity
    ∷ route delete (parameter ∷ []) delete_unit
    ∷ [])

abbrev pub residents_router : List Route
residents_router = under (fixed "residents" ∷ []) (
    route post [] provision_resident
    ∷ route post (fixed "register" ∷ []) register_device
    ∷ route patch (parameter ∷ fixed "revoke" ∷ []) revoke_resident
    ∷ route patch (parameter ∷ fixed "contact" ∷ []) update_resident_contact
    ∷ route get (parameter ∷ []) get_resident
    ∷ route get (fixed "by-unit" ∷ parameter ∷ []) list_residents_by_unit
    ∷ [])

abbrev pub checkers_router : List Route
checkers_router = under (fixed "checkers" ∷ []) (
    route post [] create_checker
    ∷ route get [] list_checkers
    ∷ route patch (parameter ∷ []) update_checker
    ∷ [])

abbrev pub auth_router : List Route
auth_router = under (fixed "auth" ∷ []) (
    route post (fixed "admin" ∷ fixed "login" ∷ []) admin_login
    ∷ route post (fixed "checker" ∷ fixed "login" ∷ []) checker_login
    ∷ [])

abbrev pub access_router : List Route
access_router = under (fixed "access" ∷ []) (route post (fixed "verify" ∷ []) verify_qr ∷ [])

abbrev pub audit_router : List Route
audit_router = under (fixed "audit-logs" ∷ []) (route get [] list_audit_logs ∷ [])

abbrev pub cleanup_router : List Route
cleanup_router = under (fixed "admin" ∷ fixed "cleanup" ∷ []) (route post [] trigger_cleanup ∷ [])

-- create_app
unfoldable pub routes : List Route
routes =
    under (fixed "api" ∷ fixed "v1" ∷ []) (
      units_router ++ residents_router ++ checkers_router ++ auth_router ++ access_router
      ++ audit_router ++ cleanup_router)
    ++ route get (fixed "health" ∷ []) health_check ∷ []

abbrev pub method_beq : Method → Method → Bool
method_beq get get = true
method_beq post post = true
method_beq patch patch = true
method_beq delete delete = true
method_beq _ _ = false

abbrev pub fits_part : Part → String → Bool
fits_part (fixed text) part = text == part
fits_part parameter part = not (is_empty part)

unfoldable pub fits_path : List Part → List String → Bool
fits_path [] [] = true
fits_path [] (part ∷ parts) = false
fits_path (p ∷ ps) [] = false
fits_path (p ∷ ps) (part ∷ parts) = fits_part p part && fits_path ps parts

abbrev pub answers : Method → List String → Route → Bool
answers method parts r = method_beq method r.method && fits_path r.path parts

-- FastAPI's router for this table, a parameter: it answers with the endpoint of some route of the
-- table that fits, and it answers where one fits. Which of several routes it takes is left open.
pub record Follows (router : Method → List String → Option Endpoint) : Type 0 where
  pub only :
      (method : Method) (parts : List String) (e : Endpoint)
      → router method parts ≡ some e
      → (before : List Route) × (r : Route) × (after : List Route) × (routes ≡ before ++ r ∷ after)
        × (answers method parts r ≡ true)
        × (r.endpoint ≡ e)
  pub every :
      (method : Method) (parts : List String) (r : Route)
      → find (answers method parts) routes ≡ some r
      → (e : Endpoint) × (router method parts ≡ some e)
