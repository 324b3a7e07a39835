-- ===== src/Routes/Quiet/Sessions.antt =====
-- What each endpoint does to the tables before its session ends.
use vista_authen.Prelude.{ℕ, String, Bool, ◌≡◌, refl, ◌∙◌, true, false, leb}
use vista_authen.Session.{World, continue, Exn, Result, ok, raised, M, ◌>>=◌}
use vista_authen.Config.{Settings}
use vista_authen.Externals.{Externals}
use vista_authen.Services.Cleanup.{cleanup_all, purge_expired_tokens, purge_old_audit_logs}
use vista_authen.Routes.Http.{with_session, status_code}
use vista_authen.Routes.Requests.{
  Request, handle, create_unit, list_units, get_unit, update_unit_capacity, delete_unit,
  provision_resident, register_device, revoke_resident, update_resident_contact, get_resident,
  list_residents_by_unit, create_checker, list_checkers, update_checker, admin_login, checker_login,
  verify_qr, list_audit_logs, trigger_cleanup,
}
use vista_authen.Routes.Scans as ScanRoutes
use vista_authen.Routes.Quiet.Deps.{require_admin_role-Reads}
use vista_authen.Routes.Quiet.Endpoints.{
  create_unit-Accounts, list_units-Reads, get_unit-Reads, update_unit_capacity-Accounts,
  delete_unit-Accounts, provision_resident-Accounts, post_device-Accounts, revoke_resident-Accounts,
  update_resident_contact-Accounts, get_resident-Reads, list_residents_by_unit-Reads,
  post_checker-Accounts, get_checkers-Reads, patch_checker-Accounts, admin_login-Reads,
  checker_login-Reads, verify_qr-Accounts, list_audit_logs-Reads,
}
use vista_authen.Session.Reads.{Reads}
use vista_authen.Session.Accounting.{Accounts, Reads-Accounts}
use vista_authen.Session.Quiet.{Quiet, Reads-Quiet}

-- a block that has committed nothing where it raises
pub record Tidy {A : Type 0} (m : M A) : Type 0 where
  pub at : (w : World) (e : Exn) → (m w).0 ≡ raised e → (m w).1.committed ≡ w.committed

pub Quiet-Tidy : {A : Type 0} {m : M A} → Quiet m → Tidy m
Quiet-Tidy q = record { at = λ w e p. q.at w }

continue-Tidy :
    {A B : Type 0} (r : Result A) (v : World) (f : A → M B) (e : Exn)
    → ((a : A) → Tidy (f a))
    → (continue (r, v) f).0 ≡ raised e
    → (continue (r, v) f).1.committed ≡ v.committed
continue-Tidy (ok a) v f e t p = (t a).at v e p
continue-Tidy (raised x) v f e t p = refl

bind-Tidy :
    {A B : Type 0} {m : M A} {f : A → M B} → Quiet m → ((a : A) → Tidy (f a)) → Tidy (m >>= f)
unfolding ◌>>=◌
bind-Tidy {m} {f} q t = record { at = λ w e p. continue-Tidy (m w).0 (m w).1 f e t p ∙ q.at w }

-- the clean-up never raises
cleanup_all-Tidy : (cfg : Settings) → Tidy (cleanup_all cfg)
unfolding cleanup_all purge_expired_tokens purge_old_audit_logs ◌>>=◌
cleanup_all-Tidy cfg = record { at = λ w e p. absurd (cc) }

trigger_cleanup-Tidy :
    (x : Externals) (cfg : Settings) (c : String) → Tidy (ScanRoutes.trigger_cleanup x cfg c)
unfolding ScanRoutes.trigger_cleanup
trigger_cleanup-Tidy x cfg c =
    bind-Tidy (Reads-Quiet (require_admin_role-Reads x cfg _ c)) (λ _. cleanup_all-Tidy cfg)

-- the request that purges
unfoldable pub is_cleanup : Request → Bool
is_cleanup (trigger_cleanup c) = true
is_cleanup _ = false

-- the requests that ask for rows or for an access token
unfoldable pub is_reading : Request → Bool
is_reading (list_units c) = true
is_reading (get_unit c i) = true
is_reading (get_resident c i) = true
is_reading (list_residents_by_unit c i) = true
is_reading (list_checkers c) = true
is_reading (admin_login r n p) = true
is_reading (checker_login r n p) = true
is_reading (list_audit_logs c a u r p s) = true
is_reading _ = false

-- The endpoint of a request, as a block that runs in a session, with what the block keeps.
pub record Within (x : Externals) (cfg : Settings) (r : Request) : Type 1 where
  pub answer : Type 0
  pub block : M answer
  pub success : ℕ
  pub fits : leb 400 success ≡ false
  pub tidy : Tidy block
  pub accounts : is_cleanup r ≡ false → Accounts block
  pub reads : is_reading r ≡ true → Reads block
  pub is :
      (w : World)
      → handle x cfg r w ≡ (status_code success (with_session block w).0, (with_session block w).1)

module _ (x : Externals) (cfg : Settings) {A : Type 0} {m : M A} {r : Request} where
  -- an endpoint that writes
  calm :
      (s : ℕ)
      → leb 400 s ≡ false
      → Accounts m
      → is_reading r ≡ false
      → ((w : World)
          → handle x cfg r w ≡ (status_code s (with_session m w).0, (with_session m w).1))
      → Within x cfg r
  calm s f q n e = record {
    answer = A;
    block = m;
    success = s;
    fits = f;
    tidy = Quiet-Tidy q.quiet;
    accounts = λ p. q;
    reads = λ p. absurd (cc);
    is = e;
  }

  -- an endpoint that reads
  reading :
      (s : ℕ)
      → leb 400 s ≡ false
      → Reads m
      → ((w : World)
          → handle x cfg r w ≡ (status_code s (with_session m w).0, (with_session m w).1))
      → Within x cfg r
  reading s f q e = record {
    answer = A;
    block = m;
    success = s;
    fits = f;
    tidy = Quiet-Tidy (Reads-Quiet q);
    accounts = λ p. Reads-Accounts q;
    reads = λ p. q;
    is = e;
  }

module _ (x : Externals) (cfg : Settings) where
  pub handle-Within : (r : Request) → Within x cfg r
  unfolding handle is_cleanup is_reading
  handle-Within (create_unit c n k) =
      calm x cfg 201 refl (create_unit-Accounts x cfg c n k) refl (λ w. refl)
  handle-Within (list_units c) = reading x cfg 200 refl (list_units-Reads x cfg c) (λ w. refl)
  handle-Within (get_unit c i) = reading x cfg 200 refl (get_unit-Reads x cfg c i) (λ w. refl)
  handle-Within (update_unit_capacity c i k) =
      calm x cfg 200 refl (update_unit_capacity-Accounts x cfg c i k) refl (λ w. refl)
  handle-Within (delete_unit c i) =
      calm x cfg 204 refl (delete_unit-Accounts x cfg c i) refl (λ w. refl)
  handle-Within (provision_resident c i n p e) =
      calm x cfg 201 refl (provision_resident-Accounts x cfg c i n p e) refl (λ w. refl)
  handle-Within (register_device t k) =
      calm x cfg 200 refl (post_device-Accounts x cfg t k) refl (λ w. refl)
  handle-Within (revoke_resident c i) =
      calm x cfg 200 refl (revoke_resident-Accounts x cfg c i) refl (λ w. refl)
  handle-Within (update_resident_contact c i p e) =
      calm x cfg 200 refl (update_resident_contact-Accounts x cfg c i p e) refl (λ w. refl)
  handle-Within (get_resident c i) =
      reading x cfg 200 refl (get_resident-Reads x cfg c i) (λ w. refl)
  handle-Within (list_residents_by_unit c i) =
      reading x cfg 200 refl (list_residents_by_unit-Reads x cfg c i) (λ w. refl)
  handle-Within (create_checker c n p r) =
      calm x cfg 201 refl (post_checker-Accounts x cfg c n p r) refl (λ w. refl)
  handle-Within (list_checkers c) = reading x cfg 200 refl (get_checkers-Reads x cfg c) (λ w. refl)
  handle-Within (update_checker c i r a) =
      calm x cfg 200 refl (patch_checker-Accounts x cfg c i r a) refl (λ w. refl)
  handle-Within (admin_login r n p) =
      reading x cfg 200 refl (admin_login-Reads x cfg r n p) (λ w. refl)
  handle-Within (checker_login r n p) =
      reading x cfg 200 refl (checker_login-Reads x cfg r n p) (λ w. refl)
  handle-Within (verify_qr r c q) =
      calm x cfg 200 refl (verify_qr-Accounts x cfg r c q) refl (λ w. refl)
  handle-Within (list_audit_logs c a u r p s) =
      reading x cfg 200 refl (list_audit_logs-Reads x cfg c a u r p s) (λ w. refl)
  handle-Within (trigger_cleanup c) = record {
    answer = _;
    block = ScanRoutes.trigger_cleanup x cfg c;
    success = 200;
    fits = refl;
    tidy = trigger_cleanup-Tidy x cfg c;
    accounts = λ p. absurd (cc);
    reads = λ p. absurd (cc);
    is = λ w. refl;
  }
