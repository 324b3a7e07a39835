-- ===== src/Lifecycle/Endpoints/Units.antt =====
-- The endpoints of app/routes/units.py make only changes that the specification allows.
use vista_authen.Prelude.{ℕ, String}
use vista_authen.Models.{Db}
use vista_authen.Session.{World}
use vista_authen.Session.Wp.{Wp, wp-pure, wp-lift, wp-query, wp-query_last, wp-raise_if_last}
use vista_authen.Externals.{Externals}
use vista_authen.Config.{Settings}
use vista_authen.Services.Units.{list_all, get_by_id}
use vista_authen.Routes.Units as UnitRoutes
use vista_authen.Lifecycle.Logs.{and_then, At, Reaches}
use vista_authen.Lifecycle.Guards.{
  validate-Reach, or_not_found-Reach, uuid_arg-Reach, or_bad_request-Reach,
  require_admin_role-Reach,
}
use vista_authen.Lifecycle.Capacity.{create-Reach, update_capacity-Reach, delete-Reach}

module _ {d : Db} {w : World} (so_far : At d w) (x : Externals) (cfg : Settings) where
  pub create_unit-Reach :
      (c n : String) (k : ℕ) → Wp (UnitRoutes.create_unit x cfg c n k) w (Reaches d)
  unfolding UnitRoutes.create_unit
  create_unit-Reach c n k = and_then _ _ (require_admin_role-Reach so_far x cfg c _) (λ a v h.
      and_then _ _ (validate-Reach h _)
        (λ u v1 h1. and_then _ _ (create-Reach h1 n k) (λ b v2 h2. wp-pure _ h2)))

  pub list_units-Reach : (c : String) → Wp (UnitRoutes.list_units x cfg c) w (Reaches d)
  unfolding UnitRoutes.list_units list_all
  list_units-Reach c =
      and_then _ _ (require_admin_role-Reach so_far x cfg c _)
        (λ a v h. wp-query _ _ (wp-query_last _ h))

  pub get_unit-Reach : (c i : String) → Wp (UnitRoutes.get_unit x cfg c i) w (Reaches d)
  unfolding UnitRoutes.get_unit get_by_id
  get_unit-Reach c i = and_then _ _ (require_admin_role-Reach so_far x cfg c _) (λ a v h.
      and_then _ _ (uuid_arg-Reach h i) (λ id v1 h1.
        wp-query _ _ (and_then _ _ (or_not_found-Reach h1 _) (λ u v2 h2. wp-query_last _ h2))))

  pub update_unit_capacity-Reach :
      (c i : String) (k : ℕ) → Wp (UnitRoutes.update_unit_capacity x cfg c i k) w (Reaches d)
  unfolding UnitRoutes.update_unit_capacity
  update_unit_capacity-Reach c i k =
      and_then _ _ (require_admin_role-Reach so_far x cfg c _) (λ a v h.
        and_then _ _ (validate-Reach h _) (λ u v1 h1.
          and_then _ _
            (or_bad_request-Reach h1
              (and_then _ _ (uuid_arg-Reach h1 i) (λ id v2 h2. update_capacity-Reach h2 id k)))
            (λ o v2 h2.
              and_then _ _ (or_not_found-Reach h2 _)
                (λ b v3 h3. wp-lift _ _ (λ t e. wp-query_last _ h3) (λ e same. h3)))))

  pub delete_unit-Reach : (c i : String) → Wp (UnitRoutes.delete_unit x cfg c i) w (Reaches d)
  unfolding UnitRoutes.delete_unit
  delete_unit-Reach c i = and_then _ _ (require_admin_role-Reach so_far x cfg c _) (λ a v h.
      and_then _ _
        (or_bad_request-Reach h
          (and_then _ _ (uuid_arg-Reach h i) (λ id v1 h1. delete-Reach h1 id)))
        (λ o v1 h1. wp-raise_if_last _ _ (λ found. h1) (λ missing. h1)))
