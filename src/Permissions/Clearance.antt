-- ===== src/Permissions/Clearance.antt =====
-- app/routes: who may make which request.
use vista_authen.Prelude.{
  ℕ, String, ◌≡◌, refl, true, sym, ◌∙◌, subst, leb, List, [], ◌∷◌, ◌⊎◌, inl, inr,
}
use vista_authen.Models.{Admin, Checker, AdminRole, setup_admin, resident_admin, staff_admin}
use vista_authen.Session.{M, World, Result, ok, raised, Exn, continue, ◌>>=◌}
use vista_authen.Session.Wp.{Wp}
use vista_authen.Config.{Settings}
use vista_authen.Externals.{Externals}
use vista_authen.Deps.{User, require_admin_role}
use vista_authen.Routes.Http.{with_session, settle, status_code}
use vista_authen.Routes.Units as UnitRoutes
use vista_authen.Routes.Residents as ResidentRoutes
use vista_authen.Routes.Staff as StaffRoutes
use vista_authen.Routes.Scans as ScanRoutes
use vista_authen.Routes.Requests.{
  Request, handle, create_unit, list_units, get_unit, update_unit_capacity, delete_unit,
  provision_resident, register_device, revoke_resident, update_resident_contact, get_resident,
  list_residents_by_unit, create_checker, list_checkers, update_checker, admin_login, checker_login,
  verify_qr, list_audit_logs, trigger_cleanup,
}
use vista_authen.Routes.Quiet.Failing.{handle-rolls_back}
use vista_authen.Permissions.Identity.{Denial, not_known, not_allowed, bad_subject, no_text}
use vista_authen.Permissions.Roles.{Authorised, require_admin_role-Authorises}
use vista_authen.Permissions.Checkers.{
  IsChecker, IsOverseer, get_current_checker-Identifies, require_staff_admin_or_manager-Oversees,
}

-- who may make a request, with the credentials that come with it
pub data Clearance : Type 0 where
  anyone : Clearance
  admins : String → List AdminRole → Clearance
  checkers overseers : String → Clearance

-- the table of roles
abbrev pub clearance : Request → Clearance
clearance (create_unit c n k) = admins c (setup_admin ∷ [])
clearance (list_units c) = admins c (setup_admin ∷ resident_admin ∷ [])
clearance (get_unit c i) = admins c (setup_admin ∷ resident_admin ∷ [])
clearance (update_unit_capacity c i k) = admins c (setup_admin ∷ [])
clearance (delete_unit c i) = admins c (setup_admin ∷ [])
clearance (provision_resident c i n p e) = admins c (resident_admin ∷ [])
clearance (register_device t k) = anyone
clearance (revoke_resident c i) = admins c (resident_admin ∷ [])
clearance (update_resident_contact c i p e) = admins c (resident_admin ∷ [])
clearance (get_resident c i) = admins c (resident_admin ∷ [])
clearance (list_residents_by_unit c i) = admins c (resident_admin ∷ [])
clearance (create_checker c n p r) = admins c (staff_admin ∷ [])
clearance (list_checkers c) = admins c (staff_admin ∷ [])
clearance (update_checker c i r a) = admins c (staff_admin ∷ [])
clearance (admin_login r n p) = anyone
clearance (checker_login r n p) = anyone
clearance (verify_qr r c q) = checkers c
clearance (list_audit_logs c a u r p s) = overseers c
clearance (trigger_cleanup c) = admins c (setup_admin ∷ staff_admin ∷ [])

-- The account that the credentials name is there, is active and has a role that the request asks for.
abbrev pub Cleared : Externals → Settings → World → Clearance → Type 0
Cleared x cfg w anyone = Unit
Cleared x cfg w (admins c roles) = (a : Admin) × Authorised x cfg w c roles a
Cleared x cfg w (checkers c) = (k : Checker) × IsChecker x cfg c w k
Cleared x cfg w (overseers c) = (u : User) × IsOverseer x cfg c w u

-- 401, 403, or the 500 of a token whose subject is no UUID; and nothing is committed
abbrev Denies : ℕ → Type 0
Denies code = (code ≡ 401) ⊎ ((code ≡ 403) ⊎ (code ≡ 500))

abbrev pub TurnsAway : World → ℕ × World → Type 0
TurnsAway w (code, v) = Denies code × (v.committed ≡ w.committed)

-- a block that ends in a denial or begins with `P`
record Gated {A : Type 0} (m : M A) (w : World) (P : Type 0) : Type 0 where
  at : P ⊎ ((e : Exn) × Denial e × ((m w).0 ≡ raised e))

module _ {A B : Type 0} {P : Type 0} (Q : Result A → World → Type 0)
    (refused : (e : Exn) (v : World) → Q (raised e) v → Denial e)
    (passed : (a : A) (v : World) → Q (ok a) v → P) where
  continue-Gated :
      (r : Result A) (v : World) (f : A → M B)
      → Q r v
      → P ⊎ ((e : Exn) × Denial e × ((continue (r, v) f).0 ≡ raised e))
  continue-Gated (ok a) v f q = inl (passed a v q)
  continue-Gated (raised e) v f q = inr (e, refused e v q, refl)

  bind-Gated : {m : M A} (f : A → M B) {w : World} → Wp m w Q → Gated (m >>= f) w P
  unfolding ◌>>=◌
  bind-Gated {m} f {w} h = record { at = continue-Gated (m w).0 (m w).1 f h.at }

denied_code : (A : Type 0) (s : ℕ) {e : Exn} → Denial e → Denies (status_code {A = A} s (raised e))
denied_code A s not_known = inl refl
denied_code A s not_allowed = inr (inl refl)
denied_code A s bad_subject = inr (inr refl)
denied_code A s no_text = inr (inr refl)

settle-result : {A : Type 0} (r : Result A) (v : World) → (settle r v).0 ≡ r
unfolding settle
settle-result (ok a) v = refl
settle-result (raised e) v = refl

-- the session in which a request begins
abbrev pub opened : World → World
opened w = record w { db = w.committed }

settled :
    {A : Type 0} {P : Type 0} {m : M A} (s : ℕ) (w : World)
    → Gated m (opened w) P
    → P ⊎ Denies (status_code s (with_session m w).0)
unfolding with_session
settled {A} {m} s w g = elim g.at [
  | inl p ↦ inl p
  | inr d ↦ inr (
      subst (λ r. Denies (status_code s r))
        (sym (settle-result (m (opened w)).0 (m (opened w)).1 ∙ d.2)) (denied_code A s d.1))
]

denied_fails : (code : ℕ) → Denies code → leb 400 code ≡ true
denied_fails code (inl h) = subst (λ n. leb 400 n ≡ true) (sym h) refl
denied_fails code (inr (inl h)) = subst (λ n. leb 400 n ≡ true) (sym h) refl
denied_fails code (inr (inr h)) = subst (λ n. leb 400 n ≡ true) (sym h) refl

module _ (x : Externals) (cfg : Settings) where
  admins-Gated :
      {B : Type 0} (f : Admin → M B) (roles : List AdminRole) (c : String) (w : World)
      → Gated (require_admin_role x cfg roles c >>= f) w (Cleared x cfg w (admins c roles))
  admins-Gated f roles c w =
      bind-Gated _ (λ e v d. d) (λ a v is. (a, is)) f
        (require_admin_role-Authorises x cfg c roles w)

  handle-Gated :
      (r : Request) (w : World)
      → Cleared x cfg (opened w) (clearance r) ⊎ Denies (handle x cfg r w).0
  unfolding handle UnitRoutes.create_unit UnitRoutes.list_units UnitRoutes.get_unit
      UnitRoutes.update_unit_capacity UnitRoutes.delete_unit ResidentRoutes.provision_resident
      ResidentRoutes.revoke_resident ResidentRoutes.update_resident_contact
      ResidentRoutes.get_resident ResidentRoutes.list_residents_by_unit StaffRoutes.create_checker
      StaffRoutes.list_checkers StaffRoutes.update_checker ScanRoutes.verify_qr
      ScanRoutes.list_audit_logs ScanRoutes.trigger_cleanup
  handle-Gated (create_unit c n k) w = settled 201 w (admins-Gated _ _ c _)
  handle-Gated (list_units c) w = settled 200 w (admins-Gated _ _ c _)
  handle-Gated (get_unit c i) w = settled 200 w (admins-Gated _ _ c _)
  handle-Gated (update_unit_capacity c i k) w = settled 200 w (admins-Gated _ _ c _)
  handle-Gated (delete_unit c i) w = settled 204 w (admins-Gated _ _ c _)
  handle-Gated (provision_resident c i n p e) w = settled 201 w (admins-Gated _ _ c _)
  handle-Gated (register_device t k) w = inl tt
  handle-Gated (revoke_resident c i) w = settled 200 w (admins-Gated _ _ c _)
  handle-Gated (update_resident_contact c i p e) w = settled 200 w (admins-Gated _ _ c _)
  handle-Gated (get_resident c i) w = settled 200 w (admins-Gated _ _ c _)
  handle-Gated (list_residents_by_unit c i) w = settled 200 w (admins-Gated _ _ c _)
  handle-Gated (create_checker c n p r) w = settled 201 w (admins-Gated _ _ c _)
  handle-Gated (list_checkers c) w = settled 200 w (admins-Gated _ _ c _)
  handle-Gated (update_checker c i r a) w = settled 200 w (admins-Gated _ _ c _)
  handle-Gated (admin_login r n p) w = inl tt
  handle-Gated (checker_login r n p) w = inl tt
  handle-Gated (verify_qr r c q) w =
      settled 200 w
        (bind-Gated _ (λ e v d. d) (λ k v is. (k, is)) _ (get_current_checker-Identifies x cfg c _))
  handle-Gated (list_audit_logs c a u r p s) w = settled 200 w (
      bind-Gated _ (λ e v d. d) (λ k v is. (k, is)) _
        (require_staff_admin_or_manager-Oversees x cfg c _))
  handle-Gated (trigger_cleanup c) w = settled 200 w (admins-Gated _ _ c _)

  -- A request that is not open to anyone either comes from an active account, which a valid token
  -- names and which has a role that the request asks for, or is answered 401, 403 or 500 and commits
  -- nothing.
  pub handle-TurnsAway :
      (r : Request) (w : World)
      → Cleared x cfg (opened w) (clearance r) ⊎ TurnsAway w (handle x cfg r w)
  handle-TurnsAway r w = elim (handle-Gated r w) [
    | inl cleared ↦ inl cleared
    | inr code ↦ inr (code, handle-rolls_back x cfg r w (denied_fails _ code))
  ]
