-- ===== src/Lifecycle/Endpoints/Residents.antt =====
-- The endpoints of app/routes/residents.py make only changes that the specification allows.
use vista_authen.Prelude.{String, Option}
use vista_authen.Models.{Db}
use vista_authen.Session.{World}
use vista_authen.Session.Wp.{Wp, wp-pure, wp-query}
use vista_authen.Externals.{Externals}
use vista_authen.Config.{Settings}
use vista_authen.Routes.Residents as ResidentRoutes
use vista_authen.Services.Residents.{list_by_unit, get_by_id}
use vista_authen.Lifecycle.Logs.{and_then, At, Reaches}
use vista_authen.Lifecycle.Guards.{
  validate-Reach, or_not_found-Reach, uuid_arg-Reach, or_bad_request-Reach,
  require_admin_role-Reach,
}
use vista_authen.Lifecycle.Provisioning.{provision-Reach}
use vista_authen.Lifecycle.Devices.{register_device-Reach, revoke-Reach, update_contact-Reach}

module _ {d : Db} {w : World} (so_far : At d w) (x : Externals) (cfg : Settings) where
  pub provision_resident-Reach :
      (c i n : String) (p e : Option String)
      → Wp (ResidentRoutes.provision_resident x cfg c i n p e) w (Reaches d)
  unfolding ResidentRoutes.provision_resident
  provision_resident-Reach c i n p m =
      and_then _ _ (require_admin_role-Reach so_far x cfg c _) (λ a v h.
        and_then _ _ (validate-Reach h _) (λ u v1 h1.
          and_then _ _
            (or_bad_request-Reach h1
              (and_then _ _ (uuid_arg-Reach h1 i) (λ id v2 h2. provision-Reach h2 cfg id n p m _)))
            (λ o v2 h2. wp-pure _ h2)))

  pub post_device-Reach : (t k : String) → Wp (ResidentRoutes.register_device x t k) w (Reaches d)
  unfolding ResidentRoutes.register_device
  post_device-Reach t k = and_then _ _ (validate-Reach so_far _) (λ u v1 h1.
      and_then _ _ (or_bad_request-Reach h1 (register_device-Reach h1 t k))
        (λ o v2 h2. wp-pure _ h2))

  pub revoke_resident-Reach :
      (c i : String) → Wp (ResidentRoutes.revoke_resident x cfg c i) w (Reaches d)
  unfolding ResidentRoutes.revoke_resident
  revoke_resident-Reach c i = and_then _ _ (require_admin_role-Reach so_far x cfg c _) (λ a v h.
      and_then _ _ (uuid_arg-Reach h i) (λ id v1 h1.
        and_then _ _ (revoke-Reach h1 id _)
          (λ o v2 h2. and_then _ _ (or_not_found-Reach h2 _) (λ b v3 h3. wp-pure _ h3))))

  pub update_resident_contact-Reach :
      (c i : String) (p m : Option String)
      → Wp (ResidentRoutes.update_resident_contact x cfg c i p m) w (Reaches d)
  unfolding ResidentRoutes.update_resident_contact
  update_resident_contact-Reach c i p m =
      and_then _ _ (require_admin_role-Reach so_far x cfg c _) (λ a v h.
        and_then _ _ (validate-Reach h _) (λ u v1 h1.
          and_then _ _
            (or_bad_request-Reach h1
              (and_then _ _ (uuid_arg-Reach h1 i) (λ id v2 h2. update_contact-Reach h2 id p m _)))
            (λ o v2 h2. and_then _ _ (or_not_found-Reach h2 _) (λ b v3 h3. wp-pure _ h3))))

  pub get_resident-Reach : (c i : String) → Wp (ResidentRoutes.get_resident x cfg c i) w (Reaches d)
  unfolding ResidentRoutes.get_resident get_by_id
  get_resident-Reach c i = and_then _ _ (require_admin_role-Reach so_far x cfg c _) (λ a v h.
      and_then _ _ (uuid_arg-Reach h i) (λ id v1 h1.
        wp-query _ _ (and_then _ _ (or_not_found-Reach h1 _) (λ u v2 h2. wp-pure _ h2))))

  pub list_residents_by_unit-Reach :
      (c i : String) → Wp (ResidentRoutes.list_residents_by_unit x cfg c i) w (Reaches d)
  unfolding ResidentRoutes.list_residents_by_unit list_by_unit
  list_residents_by_unit-Reach c i =
      and_then _ _ (require_admin_role-Reach so_far x cfg c _)
        (λ a v h. and_then _ _ (uuid_arg-Reach h i) (λ id v1 h1. wp-query _ _ (wp-pure _ h1)))
