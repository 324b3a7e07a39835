-- ===== src/Lifecycle/Serving.antt =====
-- From a sound database, whatever requests come, the committed tables stay sound.
use vista_authen.Prelude.{List, [], ◌∷◌}
use vista_authen.Models.{Db}
use vista_authen.Session.{World, Result, ok, raised, M}
use vista_authen.Session.Wp.{Wp}
use vista_authen.Externals.{Externals}
use vista_authen.Config.{Settings}
use vista_authen.Routes.Http.{with_session, settle}
use vista_authen.Routes.Requests.{
  Request, Event, request, tick, handle, periodic_cleanup, react, serve,
}
use vista_authen.Routes.Requests.{
  create_unit, list_units, get_unit, update_unit_capacity, delete_unit, provision_resident,
  register_device, revoke_resident, update_resident_contact, get_resident, list_residents_by_unit,
  create_checker, list_checkers, update_checker, admin_login, checker_login, verify_qr,
  list_audit_logs, trigger_cleanup,
}
use vista_authen.Lifecycle.{Reach, here, Reach-trans}
use vista_authen.Lifecycle.Logs.{At, Reaches}
use vista_authen.Lifecycle.Staff.{cleanup_all-Reach}
use vista_authen.Lifecycle.Endpoints.{
  create_unit-Reach, list_units-Reach, get_unit-Reach, update_unit_capacity-Reach,
  delete_unit-Reach, provision_resident-Reach, post_device-Reach, revoke_resident-Reach,
  update_resident_contact-Reach, get_resident-Reach, list_residents_by_unit-Reach,
  post_checker-Reach, list_checkers-Reach, patch_checker-Reach, admin_login-Reach,
  checker_login-Reach, verify_qr-Reach, list_audit_logs-Reach, trigger_cleanup-Reach,
}
use vista_authen.Lifecycle.Invariant.{IsSound}
use vista_authen.Lifecycle.Soundness.{Reach-IsSound}

settle-Reach :
    {A : Type 0} (d : Db) (r : Result A) (w : World) → At d w → Reach d (settle r w).1.committed
unfolding settle
settle-Reach d (ok a) w h = h.0
settle-Reach d (raised e) w h = h.1

with_session-Reach :
    {A : Type 0} (m : M A) (w : World)
    → ((v : World) → At w.committed v → Wp m v (Reaches w.committed))
    → Reach w.committed (with_session m w).1.committed
unfolding with_session
with_session-Reach m w h =
    settle-Reach w.committed _ _ (h (record w { db = w.committed }) (here, here)).at

module _ (x : Externals) (cfg : Settings) where
  -- A request commits only what the specification allows, whatever it answers.
  pub handle-Reach : (r : Request) (w : World) → Reach w.committed (handle x cfg r w).1.committed
  unfolding handle
  handle-Reach (create_unit c n k) w =
      with_session-Reach _ w (λ v h. create_unit-Reach h x cfg c n k)
  handle-Reach (list_units c) w = with_session-Reach _ w (λ v h. list_units-Reach h x cfg c)
  handle-Reach (get_unit c i) w = with_session-Reach _ w (λ v h. get_unit-Reach h x cfg c i)
  handle-Reach (update_unit_capacity c i k) w =
      with_session-Reach _ w (λ v h. update_unit_capacity-Reach h x cfg c i k)
  handle-Reach (delete_unit c i) w = with_session-Reach _ w (λ v h. delete_unit-Reach h x cfg c i)
  handle-Reach (provision_resident c i n p e) w =
      with_session-Reach _ w (λ v h. provision_resident-Reach h x cfg c i n p e)
  handle-Reach (register_device t k) w =
      with_session-Reach _ w (λ v h. post_device-Reach h x cfg t k)
  handle-Reach (revoke_resident c i) w =
      with_session-Reach _ w (λ v h. revoke_resident-Reach h x cfg c i)
  handle-Reach (update_resident_contact c i p e) w =
      with_session-Reach _ w (λ v h. update_resident_contact-Reach h x cfg c i p e)
  handle-Reach (get_resident c i) w = with_session-Reach _ w (λ v h. get_resident-Reach h x cfg c i)
  handle-Reach (list_residents_by_unit c i) w =
      with_session-Reach _ w (λ v h. list_residents_by_unit-Reach h x cfg c i)
  handle-Reach (create_checker c n p r) w =
      with_session-Reach _ w (λ v h. post_checker-Reach h x cfg c n p r)
  handle-Reach (list_checkers c) w = with_session-Reach _ w (λ v h. list_checkers-Reach h x cfg c)
  handle-Reach (update_checker c i r a) w =
      with_session-Reach _ w (λ v h. patch_checker-Reach h x cfg c i r a)
  handle-Reach (admin_login r n p) w =
      with_session-Reach _ w (λ v h. admin_login-Reach h x cfg r n p)
  handle-Reach (checker_login r n p) w =
      with_session-Reach _ w (λ v h. checker_login-Reach h x cfg r n p)
  handle-Reach (verify_qr r c q) w = with_session-Reach _ w (λ v h. verify_qr-Reach h x cfg r c q)
  handle-Reach (list_audit_logs c a u r p s) w =
      with_session-Reach _ w (λ v h. list_audit_logs-Reach h x cfg c a u r p s)
  handle-Reach (trigger_cleanup c) w =
      with_session-Reach _ w (λ v h. trigger_cleanup-Reach h x cfg c)

  periodic_cleanup-Reach : (w : World) → Reach w.committed (periodic_cleanup x cfg w).committed
  unfolding periodic_cleanup
  periodic_cleanup-Reach w =
      (cleanup_all-Reach {w = record w { db = w.committed }} (here, here) cfg).at.1

  react-Reach : (e : Event) (w : World) → Reach w.committed (react x cfg e w).committed
  unfolding react
  react-Reach (request r) w = handle-Reach r w
  react-Reach tick w = periodic_cleanup-Reach w

  -- After any sequence of requests and rounds of the periodic task, the committed tables have come
  -- from the first ones by changes that the specification allows.
  pub serve-Reach : (es : List Event) (w : World) → Reach w.committed (serve x cfg es w).committed
  unfolding serve
  serve-Reach [] w = here
  serve-Reach (e ∷ es) w = Reach-trans (react-Reach e w) (serve-Reach es (react x cfg e w))

  -- From sound tables, any sequence of requests and rounds of the periodic task leaves the committed
  -- tables sound: no unit holds more residents than it may or has two owners, a public key is held
  -- exactly while active, and every resident and token refers to a row that is there.
  pub serve-IsSound :
      (es : List Event) (w : World) → IsSound w.committed → IsSound (serve x cfg es w).committed
  serve-IsSound es w s = Reach-IsSound (serve-Reach es w) s
