-- ===== src/Lifecycle/Staff.antt =====
-- Accounts, scans and the cleanup make only changes that the specification allows.
use vista_authen.Prelude.{◌≡◌, refl, String, Bool, not, Option, none, some, List, [], ◌∷◌}
use vista_authen.Models.{Uuid, Db, Checker, Admin, CheckerRole, AdminRole}
use vista_authen.Session.{lift, World}
use vista_authen.Session.Wp.{
  Wp, wp-pure, wp-raise, wp-query, wp-raise_if, wp-modify, wp-modify_last, wp-uuid4, wp-server_now,
  wp-utcnow, wp-if, wp-new_salt, wp-lift_last, wp-commit,
}
use vista_authen.Externals.{Externals}
use vista_authen.Config.{Settings}
use vista_authen.Rows.{get, get-key, checker_keyed}
use vista_authen.Security.{hash_password, verify_password}
use vista_authen.Tables.{add_checker, add_admin, scalar_one_or_none}
use vista_authen.Services.Accounts.{
  checker_by_name, admin_by_name, create_checker, create_admin, admit_checker, admit_admin,
  authenticate_checker, authenticate_admin, update_found, update_checker,
}
use vista_authen.Services.Cleanup.{purge_expired_tokens, purge_old_audit_logs, cleanup_all}
use vista_authen.Lifecycle.{checker_added, checker_changed, admin_added, tokens_purged, logs_purged}
use vista_authen.Lifecycle.Logs.{and_then, At, Reaches, step}

module _ {d : Db} {w : World} (so_far : At d w) where
  scalar-Reach : {A : Type 0} (rows : List A) → Wp (scalar_one_or_none rows) w (Reaches d)
  unfolding scalar_one_or_none
  scalar-Reach [] = wp-pure _ so_far
  scalar-Reach (x ∷ []) = wp-pure _ so_far
  scalar-Reach (x ∷ y ∷ xs) = wp-raise _ so_far

  pub checker_by_name-Reach : (s : String) → Wp (checker_by_name s) w (Reaches d)
  unfolding checker_by_name
  checker_by_name-Reach s = wp-query _ _ (scalar-Reach _)

  pub admin_by_name-Reach : (s : String) → Wp (admin_by_name s) w (Reaches d)
  unfolding admin_by_name
  admin_by_name-Reach s = wp-query _ _ (scalar-Reach _)

  add_checker-Reach : (c : Checker) → Wp (add_checker c) w (Reaches d)
  unfolding add_checker
  add_checker-Reach c = wp-query _ _ (
      wp-raise_if _ _ _ (λ accepted. wp-modify_last _ (step so_far (checker_added c accepted)))
        (λ taken. so_far))

  update_found-Reach :
      (i : Uuid) (o : Option Checker) (role : Option CheckerRole) (is_active : Option Bool)
      → get i w.db.checkers ≡ o
      → Wp (update_found o role is_active) w (Reaches d)
  unfolding update_found
  update_found-Reach i none role is_active e = wp-pure _ so_far
  update_found-Reach i (some c) role is_active e =
      wp-modify _ _ (wp-pure _ (step so_far (checker_changed c _ (get-key i w.db.checkers e) refl)))

  pub update_checker-Reach :
      (i : Uuid) (role : Option CheckerRole) (is_active : Option Bool)
      → Wp (update_checker i role is_active) w (Reaches d)
  unfolding update_checker
  update_checker-Reach i role is_active =
      wp-query _ _ (update_found-Reach i (get i w.db.checkers) role is_active refl)

  module _ (x : Externals) where
    verify_password-Reach : (p h : String) → Wp (verify_password x p h) w (Reaches d)
    unfolding verify_password lift
    verify_password-Reach p h = record { at = so_far }

    hash_password-Reach : (p : String) → Wp (hash_password x p) w (Reaches d)
    unfolding hash_password
    hash_password-Reach p = wp-new_salt _ (wp-lift_last _ (λ hashed e. so_far) (λ e same. so_far))

  add_admin-Reach : (a : Admin) → Wp (add_admin a) w (Reaches d)
  unfolding add_admin
  add_admin-Reach a = wp-query _ _ (
      wp-raise_if _ _ _ (λ accepted. wp-modify_last _ (step so_far (admin_added a accepted)))
        (λ taken. so_far))

  purge_expired_tokens-Reach : Wp purge_expired_tokens w (Reaches d)
  unfolding purge_expired_tokens
  purge_expired_tokens-Reach =
      wp-utcnow _ (wp-query _ _ (wp-modify _ _ (wp-pure _ (step so_far (tokens_purged _)))))

  purge_old_audit_logs-Reach : (cfg : Settings) → Wp (purge_old_audit_logs cfg) w (Reaches d)
  unfolding purge_old_audit_logs
  purge_old_audit_logs-Reach cfg =
      wp-utcnow _ (wp-query _ _ (wp-modify _ _ (wp-pure _ (step so_far (logs_purged _)))))

module _ {d : Db} {w : World} (so_far : At d w) where
  pub cleanup_all-Reach : (cfg : Settings) → Wp (cleanup_all cfg) w (Reaches d)
  unfolding cleanup_all
  cleanup_all-Reach cfg = and_then _ _ (purge_expired_tokens-Reach so_far) (λ n v h.
      and_then _ _ (purge_old_audit_logs-Reach h cfg)
        (λ m v1 h1. wp-commit _ (wp-pure _ (h1.0, h1.0))))

  module _ (x : Externals) where
    pub create_checker-Reach :
        (name password : String) (role : CheckerRole)
        → Wp (create_checker x name password role) w (Reaches d)
    unfolding create_checker
    create_checker-Reach name password role =
        and_then _ _ (checker_by_name-Reach so_far name) (λ found v h.
          wp-raise_if _ _ _
            (λ free. and_then _ _ (hash_password-Reach h x password) (λ hashed v1 h1.
              wp-uuid4 _ (
                wp-server_now _ (and_then _ _ (add_checker-Reach h1 _) (λ a v2 h2. wp-pure _ h2)))))
            (λ taken. h))

    pub create_admin-Reach :
        (name password : String) (role : AdminRole)
        → Wp (create_admin x name password role) w (Reaches d)
    unfolding create_admin
    create_admin-Reach name password role =
        and_then _ _ (admin_by_name-Reach so_far name) (λ found v h.
          wp-raise_if _ _ _
            (λ free. and_then _ _ (hash_password-Reach h x password) (λ hashed v1 h1.
              wp-uuid4 _
                (wp-server_now _ (and_then _ _ (add_admin-Reach h1 _) (λ a v2 h2. wp-pure _ h2)))))
            (λ taken. h))

    admit_checker-Reach : (o : Option Checker) (p : String) → Wp (admit_checker x o p) w (Reaches d)
    unfolding admit_checker
    admit_checker-Reach none p = wp-pure _ so_far
    admit_checker-Reach (some c) p =
        wp-if (not c.is_active) (λ off. wp-pure _ so_far)
          (λ on.
            and_then _ _ (verify_password-Reach so_far x p _)
              (λ valid v h. wp-if (not valid) (λ wrong. wp-pure _ h) (λ right. wp-pure _ h)))

    admit_admin-Reach : (o : Option Admin) (p : String) → Wp (admit_admin x o p) w (Reaches d)
    unfolding admit_admin
    admit_admin-Reach none p = wp-pure _ so_far
    admit_admin-Reach (some c) p =
        wp-if (not c.is_active) (λ off. wp-pure _ so_far)
          (λ on.
            and_then _ _ (verify_password-Reach so_far x p _)
              (λ valid v h. wp-if (not valid) (λ wrong. wp-pure _ h) (λ right. wp-pure _ h)))

module _ {d : Db} {w : World} (so_far : At d w) (x : Externals) where
  pub authenticate_checker-Reach : (n p : String) → Wp (authenticate_checker x n p) w (Reaches d)
  unfolding authenticate_checker
  authenticate_checker-Reach n p =
      and_then _ _ (checker_by_name-Reach so_far n) (λ o v h. admit_checker-Reach h x o p)

  pub authenticate_admin-Reach : (n p : String) → Wp (authenticate_admin x n p) w (Reaches d)
  unfolding authenticate_admin
  authenticate_admin-Reach n p =
      and_then _ _ (admin_by_name-Reach so_far n) (λ o v h. admit_admin-Reach h x o p)
