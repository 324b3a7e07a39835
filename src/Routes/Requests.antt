-- ===== src/Routes/Requests.antt =====
-- Every request of the API, the session in which it runs and its status code; and the periodic task
-- of app/main.py.
use vista_authen.Prelude.{ℕ, String, Bool, Option, List, [], ◌∷◌}
use vista_authen.Models.{CheckerRole}
use vista_authen.Session.{M, World}
use vista_authen.Config.{Settings}
use vista_authen.Externals.{Externals}
use vista_authen.Limiter.{Caller}
use vista_authen.Services.Cleanup.{cleanup_all}
use vista_authen.Routes.Http.{with_session, status_code}
use vista_authen.Routes.Units as UnitRoutes
use vista_authen.Routes.Residents as ResidentRoutes
use vista_authen.Routes.Staff as StaffRoutes
use vista_authen.Routes.Scans as ScanRoutes

-- The caller where the rate limiter asks for it, the credentials, then the path and the body.
pub data Request : Type 0 where
  create_unit : String → String → ℕ → Request
  list_units : String → Request
  get_unit : String → String → Request
  update_unit_capacity : String → String → ℕ → Request
  delete_unit : String → String → Request
  provision_resident : String → String → String → Option String → Option String → Request
  register_device : String → String → Request
  revoke_resident : String → String → Request
  update_resident_contact : String → String → Option String → Option String → Request
  get_resident : String → String → Request
  list_residents_by_unit : String → String → Request
  create_checker : String → String → String → CheckerRole → Request
  list_checkers : String → Request
  update_checker : String → String → Option CheckerRole → Option Bool → Request
  admin_login checker_login : Caller → String → String → Request
  verify_qr : Caller → String → String → Request
  list_audit_logs : String → Option String → Option String → Option String → ℕ → ℕ → Request
  trigger_cleanup : String → Request

module _ (x : Externals) (cfg : Settings) where
  -- a request in its session: its status code, and the world that it leaves
  abbrev run : {A : Type 0} → ℕ → M A → World → ℕ × World
  run success m w = let (r, v) = with_session m w in (status_code success r, v)

  unfoldable pub handle : Request → World → ℕ × World
  handle (create_unit c n k) = run 201 (UnitRoutes.create_unit x cfg c n k)
  handle (list_units c) = run 200 (UnitRoutes.list_units x cfg c)
  handle (get_unit c i) = run 200 (UnitRoutes.get_unit x cfg c i)
  handle (update_unit_capacity c i k) = run 200 (UnitRoutes.update_unit_capacity x cfg c i k)
  handle (delete_unit c i) = run 204 (UnitRoutes.delete_unit x cfg c i)
  handle (provision_resident c i n p e) =
      run 201 (ResidentRoutes.provision_resident x cfg c i n p e)
  handle (register_device t k) = run 200 (ResidentRoutes.register_device x t k)
  handle (revoke_resident c i) = run 200 (ResidentRoutes.revoke_resident x cfg c i)
  handle (update_resident_contact c i p e) =
      run 200 (ResidentRoutes.update_resident_contact x cfg c i p e)
  handle (get_resident c i) = run 200 (ResidentRoutes.get_resident x cfg c i)
  handle (list_residents_by_unit c i) = run 200 (ResidentRoutes.list_residents_by_unit x cfg c i)
  handle (create_checker c n p r) = run 201 (StaffRoutes.create_checker x cfg c n p r)
  handle (list_checkers c) = run 200 (StaffRoutes.list_checkers x cfg c)
  handle (update_checker c i r a) = run 200 (StaffRoutes.update_checker x cfg c i r a)
  handle (admin_login r n p) = run 200 (StaffRoutes.admin_login x cfg r n p)
  handle (checker_login r n p) = run 200 (StaffRoutes.checker_login x cfg r n p)
  handle (verify_qr r c q) = run 200 (ScanRoutes.verify_qr x cfg r c q)
  handle (list_audit_logs c a u r p s) = run 200 (ScanRoutes.list_audit_logs x cfg c a u r p s)
  handle (trigger_cleanup c) = run 200 (ScanRoutes.trigger_cleanup x cfg c)

  -- One round of `run_periodic_cleanup`: a session of its own, closed with no further commit, and
  -- errors that are only logged.
  unfoldable pub periodic_cleanup : World → World
  periodic_cleanup w =
      let v = (cleanup_all cfg (record w { db = w.committed })).1 in record v { db = v.committed }

-- What happens to the server: a request, or the periodic task.
pub data Event : Type 0 where
  request : Request → Event
  tick : Event

module _ (x : Externals) (cfg : Settings) where
  unfoldable pub react : Event → World → World
  react (request r) w = (handle x cfg r w).1
  react tick w = periodic_cleanup x cfg w

  -- events one after another
  unfoldable pub serve : List Event → World → World
  serve [] w = w
  serve (e ∷ es) w = serve es (react e w)
