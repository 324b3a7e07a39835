-- ===== src/Server/Addresses.antt =====
-- Every request of the API is sent to the function that answers it.
use vista_authen.Prelude.{
  ◌≤◌, ◌≡◌, refl, String, Bool, true, false, List, [], ◌∷◌, Option, none, Option-cases, inl, inr,
  ◌++◌, find, ap, sym, subst, ◌∙◌, String_eq, count, All, arith, some,
}
use vista_authen.Python.Strings.{is_empty}
use vista_authen.Routes.Requests.{Request}
use vista_authen.Routes.Requests as Requests
use vista_authen.Server.Routing.{
  Endpoint, Follows, create_unit, list_units, get_unit, update_unit_capacity, delete_unit,
  provision_resident, register_device, revoke_resident, update_resident_contact, get_resident,
  list_residents_by_unit, create_checker, list_checkers, update_checker, admin_login, checker_login,
  verify_qr, list_audit_logs, trigger_cleanup, Method, get, post, patch, delete, Route, routes,
  fits_path, answers,
}
use vista_authen.Server.Dispatch.{routes_unambiguous}

-- The method of a request and the parts of its path below `/api/v1`: the table of plan.md, with the
-- two endpoints that it leaves out (the update of contact details and the clean-up).
unfoldable pub address : Request → Method × List String
address (Requests.create_unit c n k) = (post, "units" ∷ [])
address (Requests.list_units c) = (get, "units" ∷ [])
address (Requests.get_unit c i) = (get, "units" ∷ i ∷ [])
address (Requests.update_unit_capacity c i k) = (patch, "units" ∷ i ∷ [])
address (Requests.delete_unit c i) = (delete, "units" ∷ i ∷ [])
address (Requests.provision_resident c i n p e) = (post, "residents" ∷ [])
address (Requests.register_device t k) = (post, "residents" ∷ "register" ∷ [])
address (Requests.revoke_resident c i) = (patch, "residents" ∷ i ∷ "revoke" ∷ [])
address (Requests.update_resident_contact c i p e) = (patch, "residents" ∷ i ∷ "contact" ∷ [])
address (Requests.get_resident c i) = (get, "residents" ∷ i ∷ [])
address (Requests.list_residents_by_unit c i) = (get, "residents" ∷ "by-unit" ∷ i ∷ [])
address (Requests.create_checker c n p r) = (post, "checkers" ∷ [])
address (Requests.list_checkers c) = (get, "checkers" ∷ [])
address (Requests.update_checker c i r a) = (patch, "checkers" ∷ i ∷ [])
address (Requests.admin_login r n p) = (post, "auth" ∷ "admin" ∷ "login" ∷ [])
address (Requests.checker_login r n p) = (post, "auth" ∷ "checker" ∷ "login" ∷ [])
address (Requests.verify_qr r c q) = (post, "access" ∷ "verify" ∷ [])
address (Requests.list_audit_logs c a u r p s) = (get, "audit-logs" ∷ [])
address (Requests.trigger_cleanup c) = (post, "admin" ∷ "cleanup" ∷ [])

-- the function that is to answer it
unfoldable pub endpoint_of : Request → Endpoint
endpoint_of (Requests.create_unit c n k) = create_unit
endpoint_of (Requests.list_units c) = list_units
endpoint_of (Requests.get_unit c i) = get_unit
endpoint_of (Requests.update_unit_capacity c i k) = update_unit_capacity
endpoint_of (Requests.delete_unit c i) = delete_unit
endpoint_of (Requests.provision_resident c i n p e) = provision_resident
endpoint_of (Requests.register_device t k) = register_device
endpoint_of (Requests.revoke_resident c i) = revoke_resident
endpoint_of (Requests.update_resident_contact c i p e) = update_resident_contact
endpoint_of (Requests.get_resident c i) = get_resident
endpoint_of (Requests.list_residents_by_unit c i) = list_residents_by_unit
endpoint_of (Requests.create_checker c n p r) = create_checker
endpoint_of (Requests.list_checkers c) = list_checkers
endpoint_of (Requests.update_checker c i r a) = update_checker
endpoint_of (Requests.admin_login r n p) = admin_login
endpoint_of (Requests.checker_login r n p) = checker_login
endpoint_of (Requests.verify_qr r c q) = verify_qr
endpoint_of (Requests.list_audit_logs c a u r p s) = list_audit_logs
endpoint_of (Requests.trigger_cleanup c) = trigger_cleanup

abbrev pub endpoint_in : Option Route → Option Endpoint
endpoint_in none = none
endpoint_in (some r) = some r.endpoint

-- the first route that fits
first-address :
    (r : Request)
    → All (λ part. is_empty part ≡ false) (address r).1
    → endpoint_in (find (answers (address r).0 ("api" ∷ "v1" ∷ (address r).1)) routes)
      ≡ some (endpoint_of r)
unfolding routes fits_path address endpoint_of
first-address (Requests.create_unit c n k) h = refl
first-address (Requests.list_units c) h = refl
first-address (Requests.get_unit c i) h = rw h.1.0 refl
first-address (Requests.update_unit_capacity c i k) h = rw h.1.0 refl
first-address (Requests.delete_unit c i) h = rw h.1.0 refl
first-address (Requests.provision_resident c i n p e) h = refl
first-address (Requests.register_device t k) h = refl
first-address (Requests.revoke_resident c i) h = rw h.1.0 refl
first-address (Requests.update_resident_contact c i p e) h = rw h.1.0 refl
first-address (Requests.get_resident c i) h = rw h.1.0 refl
first-address (Requests.list_residents_by_unit c i) h = rw h.1.1.0 refl
first-address (Requests.create_checker c n p r) h = refl
first-address (Requests.list_checkers c) h = refl
first-address (Requests.update_checker c i r a) h = rw h.1.0 refl
first-address (Requests.admin_login r n p) h = refl
first-address (Requests.checker_login r n p) h = refl
first-address (Requests.verify_qr r c q) h = refl
first-address (Requests.list_audit_logs c a u r p s) h = refl
first-address (Requests.trigger_cleanup c) h = refl

count_hit :
    (p : Route → Bool) (before after : List Route) (r : Route)
    → p r ≡ true
    → 1 ≤ count p (before ++ r ∷ after)
count_hit p [] after r h = ground arith
count_hit p (b ∷ before) after r h = omega (arith, count_hit p before after r h)

-- Where at most one row passes, the one that does is found.
find_hit :
    (p : Route → Bool) (before after : List Route) (r : Route)
    → p r ≡ true
    → count p (before ++ r ∷ after) ≤ 1
    → find p (before ++ r ∷ after) ≡ some r
find_hit p [] after r h one = rw h refl
find_hit p (b ∷ before) after r h one =
    ground (arith, count_hit p before after r, find_hit p before after r)

-- A router that follows the table takes every request that leaves no parameter of its path empty to
-- the function of its name, whatever it does where several routes fit.
pub router-address :
    (router : Method → List String → Option Endpoint) (r : Request)
    → Follows router
    → All (λ part. is_empty part ≡ false) (address r).1
    → router (address r).0 ("api" ∷ "v1" ∷ (address r).1) ≡ some (endpoint_of r)
router-address router r follows h =
    let m = (address r).0 in
    let parts = "api" ∷ "v1" ∷ (address r).1 in
    let named = first-address r h in
    elim (Option-cases (find (answers m parts) routes)) [
      | inl nothing ↦ let no = rw nothing at named in absurd (cc)
      | inr (t, first) ↦
          let name : some t.endpoint ≡ some (endpoint_of r) = rw first at named in
          let (e, taken) = follows.every m parts t first in
          let (before, q, after, table, fits, is) = follows.only m parts e taken in
          let found : find (answers m parts) routes ≡ some q =
            ap (find (answers m parts)) table
            ∙ find_hit (answers m parts) before after q fits
                (subst (λ rs. count (answers m parts) rs ≤ 1) table (routes_unambiguous m parts)) in
          let same : endpoint_in (some q) ≡ endpoint_in (some t) =
            ap endpoint_in (sym found ∙ first) in
          taken ∙ ap some (sym is) ∙ same ∙ name
    ]
