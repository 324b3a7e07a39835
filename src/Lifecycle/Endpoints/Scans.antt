-- ===== src/Lifecycle/Endpoints/Scans.antt =====
-- The endpoints of app/routes/access.py, app/routes/audit.py and app/routes/cleanup.py make only changes that the specification allows.
use vista_authen.Prelude.{ℕ, String, Option, none, some}
use vista_authen.Models.{Uuid, Db}
use vista_authen.Session.{World}
use vista_authen.Session.Wp.{Wp, wp-pure, wp-query, wp-tie_order, wp-if}
use vista_authen.Externals.{Externals}
use vista_authen.Config.{Settings}
use vista_authen.Limiter.{Caller}
use vista_authen.Routes.Scans as ScanRoutes
use vista_authen.Routes.Scans.{optional_uuid}
use vista_authen.Python.Strings.{is_empty}
use vista_authen.Services.Audit.{list_logs}
use vista_authen.Lifecycle.Logs.{and_then, At, Reaches}
use vista_authen.Lifecycle.Guards.{
  validate-Reach, uuid_arg-Reach, get_current_checker-Reach, get_checker_rate_limit_key-Reach,
  rate_limit-Reach, require_admin_role-Reach, require_staff_admin_or_manager-Reach,
}
use vista_authen.Lifecycle.Staff.{cleanup_all-Reach}
use vista_authen.Lifecycle.Scans.{verify-Reach}

optional_uuid-Reach :
    {d : Db} {w : World} (so_far : At d w) (o : Option String) → Wp (optional_uuid o) w (Reaches d)
unfolding optional_uuid
optional_uuid-Reach so_far none = wp-pure _ so_far
optional_uuid-Reach so_far (some s) =
    wp-if (is_empty s) (λ empty. wp-pure _ so_far)
      (λ given. and_then _ _ (uuid_arg-Reach so_far s) (λ i v h. wp-pure _ h))

list_logs-Reach :
    {d : Db} {w : World} (so_far : At d w) (a : Option String) (u : Option Uuid) (r : Option String)
    (p s : ℕ)
    → Wp (list_logs a u r p s) w (Reaches d)
unfolding list_logs
list_logs-Reach so_far a u r p s = wp-query _ _ (wp-tie_order _ (wp-pure _ so_far))

module _ {d : Db} {w : World} (so_far : At d w) (x : Externals) (cfg : Settings) where
  pub verify_qr-Reach :
      (r : Caller) (c q : String) → Wp (ScanRoutes.verify_qr x cfg r c q) w (Reaches d)
  unfolding ScanRoutes.verify_qr
  verify_qr-Reach r c q = and_then _ _ (get_current_checker-Reach so_far x cfg c) (λ a v h.
      and_then _ _ (validate-Reach h _) (λ u v1 h1.
        and_then _ _ (get_checker_rate_limit_key-Reach h1 x cfg r) (λ k v2 h2.
          and_then _ _ (rate_limit-Reach h2 30 k)
            (λ t v3 h3. and_then _ _ (verify-Reach h3 x cfg q _) (λ o v4 h4. wp-pure _ h4)))))

  pub trigger_cleanup-Reach : (c : String) → Wp (ScanRoutes.trigger_cleanup x cfg c) w (Reaches d)
  unfolding ScanRoutes.trigger_cleanup
  trigger_cleanup-Reach c =
      and_then _ _ (require_admin_role-Reach so_far x cfg c _) (λ a v h. cleanup_all-Reach h cfg)

  pub list_audit_logs-Reach :
      (c : String) (a u r : Option String) (p s : ℕ)
      → Wp (ScanRoutes.list_audit_logs x cfg c a u r p s) w (Reaches d)
  unfolding ScanRoutes.list_audit_logs
  list_audit_logs-Reach c a u r p s =
      and_then _ _ (require_staff_admin_or_manager-Reach so_far x cfg c) (λ b v h.
        and_then _ _ (validate-Reach h _) (λ t v1 h1.
          and_then _ _ (optional_uuid-Reach h1 u)
            (λ o v2 h2. and_then _ _ (list_logs-Reach h2 a o r p s) (λ rows v3 h3. wp-pure _ h3))))
