-- ===== src/Lifecycle/Endpoints/Staff.antt =====
-- The endpoints of app/routes/checkers.py and app/routes/auth.py make only changes that the specification allows.
use vista_authen.Prelude.{String, Bool, Option}
use vista_authen.Models.{Db, CheckerRole}
use vista_authen.Session.{World}
use vista_authen.Session.Wp.{Wp, wp-pure, wp-query, wp-require}
use vista_authen.Externals.{Externals}
use vista_authen.Config.{Settings}
use vista_authen.Limiter.{Caller}
use vista_authen.Routes.Staff as StaffRoutes
use vista_authen.Services.Accounts.{list_checkers}
use vista_authen.Lifecycle.Logs.{and_then, At, Reaches}
use vista_authen.Lifecycle.Guards.{
  validate-Reach, or_not_found-Reach, uuid_arg-Reach, or_bad_request-Reach, rate_limit-Reach,
  create_access_token-Reach, require_admin_role-Reach,
}
use vista_authen.Lifecycle.Staff.{
  create_checker-Reach, update_checker-Reach, authenticate_checker-Reach, authenticate_admin-Reach,
}

module _ {d : Db} {w : World} (so_far : At d w) (x : Externals) (cfg : Settings) where
  pub post_checker-Reach :
      (c n p : String) (r : CheckerRole)
      → Wp (StaffRoutes.create_checker x cfg c n p r) w (Reaches d)
  unfolding StaffRoutes.create_checker
  post_checker-Reach c n p r = and_then _ _ (require_admin_role-Reach so_far x cfg c _) (λ a v h.
      and_then _ _ (validate-Reach h _) (λ u v1 h1.
        and_then _ _ (or_bad_request-Reach h1 (create_checker-Reach h1 x n p r))
          (λ o v2 h2. wp-pure _ h2)))

  pub list_checkers-Reach : (c : String) → Wp (StaffRoutes.list_checkers x cfg c) w (Reaches d)
  unfolding StaffRoutes.list_checkers list_checkers
  list_checkers-Reach c =
      and_then _ _ (require_admin_role-Reach so_far x cfg c _) (λ a v h. wp-query _ _ (wp-pure _ h))

  pub patch_checker-Reach :
      (c i : String) (r : Option CheckerRole) (on : Option Bool)
      → Wp (StaffRoutes.update_checker x cfg c i r on) w (Reaches d)
  unfolding StaffRoutes.update_checker
  patch_checker-Reach c i r on = and_then _ _ (require_admin_role-Reach so_far x cfg c _) (λ a v h.
      and_then _ _ (uuid_arg-Reach h i) (λ id v1 h1.
        and_then _ _ (update_checker-Reach h1 id r on)
          (λ o v2 h2. and_then _ _ (or_not_found-Reach h2 _) (λ b v3 h3. wp-pure _ h3))))

  pub admin_login-Reach :
      (r : Caller) (n p : String) → Wp (StaffRoutes.admin_login x cfg r n p) w (Reaches d)
  unfolding StaffRoutes.admin_login
  admin_login-Reach r n p = and_then _ _ (rate_limit-Reach so_far 5 r.address) (λ t v0 h0.
      and_then _ _ (authenticate_admin-Reach h0 x n p) (λ o v h.
        wp-require _ _ _
          (λ a e. and_then _ _ (create_access_token-Reach h x cfg _) (λ t v1 h1. wp-pure _ h1))
          (λ e. h)))

  pub checker_login-Reach :
      (r : Caller) (n p : String) → Wp (StaffRoutes.checker_login x cfg r n p) w (Reaches d)
  unfolding StaffRoutes.checker_login
  checker_login-Reach r n p = and_then _ _ (rate_limit-Reach so_far 5 r.address) (λ t v0 h0.
      and_then _ _ (authenticate_checker-Reach h0 x n p) (λ o v h.
        wp-require _ _ _
          (λ a e. and_then _ _ (create_access_token-Reach h x cfg _) (λ t v1 h1. wp-pure _ h1))
          (λ e. h)))
