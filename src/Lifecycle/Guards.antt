-- ===== src/Lifecycle/Guards.antt =====
-- What stands in front of an endpoint's work, credentials and arguments, changes no table.
use vista_authen.Prelude.{ℕ, ◌==◌, String, Bool, not, Option, none, some, List}
use vista_authen.Models.{
  Db, Admin, Checker, AdminRole, Json, Details, staff_admin, manager, admin_role_eq,
  checker_role_eq,
}
use vista_authen.Session.{World, M}
use vista_authen.Session.Wp.{
  Wp, wp-pure, wp-raise, wp-query, wp-raise_if, wp-raise_if_last, wp-require, wp-require_last,
  wp-utcnow, wp-hit, wp-if,
}
use vista_authen.Externals.{Externals}
use vista_authen.Config.{Settings}
use vista_authen.Security.{lookup, decode_access_token, create_access_token}
use vista_authen.Deps.{
  uuid_claim, active_admin, active_checker, load_admin, load_checker, get_current_admin,
  get_current_checker, is_kind, User, require_user_role, require_admin_role,
  get_current_admin_or_checker, require_staff_admin_or_manager,
}
use vista_authen.Limiter.{Caller, header_key, get_checker_rate_limit_key, rate_limit}
use vista_authen.Python.Strings.{starts}
use vista_authen.Routes.Http.{validate, or_bad_request, or_not_found, uuid_arg}
use vista_authen.Lifecycle.Logs.{and_then, At, Reaches}

module _ {d : Db} {w : World} (so_far : At d w) where
  pub validate-Reach : (b : Bool) → Wp (validate b) w (Reaches d)
  unfolding validate
  validate-Reach b = wp-raise_if_last _ _ (λ fits. so_far) (λ fails. so_far)

  pub or_not_found-Reach : {A : Type 0} (o : Option A) → Wp (or_not_found o) w (Reaches d)
  unfolding or_not_found
  or_not_found-Reach o = wp-require_last _ _ (λ a e. so_far) (λ e. so_far)

  pub uuid_arg-Reach : (s : String) → Wp (uuid_arg s) w (Reaches d)
  unfolding uuid_arg
  uuid_arg-Reach s = wp-require_last _ _ (λ a e. so_far) (λ e. so_far)

  pub or_bad_request-Reach :
      {A : Type 0} {m : M A} → Wp m w (Reaches d) → Wp (or_bad_request m) w (Reaches d)
  unfolding or_bad_request
  or_bad_request-Reach h = record { at = h.at }

  decode-Reach :
      (x : Externals) (cfg : Settings) (t : String) → Wp (decode_access_token x cfg t) w (Reaches d)
  unfolding decode_access_token
  decode-Reach x cfg t = wp-utcnow _ (wp-pure _ so_far)

  pub create_access_token-Reach :
      (x : Externals) (cfg : Settings) (claims : Details)
      → Wp (create_access_token x cfg claims) w (Reaches d)
  unfolding create_access_token
  create_access_token-Reach x cfg claims = wp-utcnow _ (wp-pure _ so_far)

  uuid_claim-Reach : (v : Json) → Wp (uuid_claim v) w (Reaches d)
  unfolding uuid_claim
  uuid_claim-Reach (Json.text s) = wp-require_last _ _ (λ a e. so_far) (λ e. so_far)
  uuid_claim-Reach _ = wp-raise _ so_far

  active_admin-Reach : (o : Option Admin) → Wp (active_admin o) w (Reaches d)
  unfolding active_admin
  active_admin-Reach none = wp-raise _ so_far
  active_admin-Reach (some a) =
      wp-if (not a.is_active) (λ off. wp-raise _ so_far) (λ on. wp-pure _ so_far)

  active_checker-Reach : (o : Option Checker) → Wp (active_checker o) w (Reaches d)
  unfolding active_checker
  active_checker-Reach none = wp-raise _ so_far
  active_checker-Reach (some a) =
      wp-if (not a.is_active) (λ off. wp-raise _ so_far) (λ on. wp-pure _ so_far)

  require_user_role-Reach : (u : User) → Wp (require_user_role u) w (Reaches d)
  unfolding require_user_role
  require_user_role-Reach (User.admin a) =
      wp-if (not (a.role == staff_admin)) (λ no_role. wp-raise _ so_far) (λ role. wp-pure _ so_far)
  require_user_role-Reach (User.checker c) =
      wp-if (not (c.role == manager)) (λ no_role. wp-raise _ so_far) (λ role. wp-pure _ so_far)

module _ {d : Db} {w : World} (so_far : At d w) where
  load_admin-Reach : (v : Json) → Wp (load_admin v) w (Reaches d)
  unfolding load_admin
  load_admin-Reach v =
      and_then _ _ (uuid_claim-Reach so_far v) (λ i v1 h. wp-query _ _ (active_admin-Reach h _))

  load_checker-Reach : (v : Json) → Wp (load_checker v) w (Reaches d)
  unfolding load_checker
  load_checker-Reach v =
      and_then _ _ (uuid_claim-Reach so_far v) (λ i v1 h. wp-query _ _ (active_checker-Reach h _))

module _ {d : Db} {w : World} (so_far : At d w) (x : Externals) (cfg : Settings) (t : String) where
  get_current_admin-Reach : Wp (get_current_admin x cfg t) w (Reaches d)
  unfolding get_current_admin
  get_current_admin-Reach = and_then _ _ (decode-Reach so_far x cfg t) (λ o v h.
      wp-require _ _ _
        (λ payload e.
          wp-raise_if _ _ _ (λ kind. wp-require _ _ _ (λ sub e1. load_admin-Reach h sub) (λ e1. h))
            (λ other. h))
        (λ e. h))

  pub get_current_checker-Reach : Wp (get_current_checker x cfg t) w (Reaches d)
  unfolding get_current_checker
  get_current_checker-Reach = and_then _ _ (decode-Reach so_far x cfg t) (λ o v h.
      wp-require _ _ _
        (λ payload e.
          wp-raise_if _ _ _
            (λ kind. wp-require _ _ _ (λ sub e1. load_checker-Reach h sub) (λ e1. h)) (λ other. h))
        (λ e. h))

  get_current_admin_or_checker-Reach : Wp (get_current_admin_or_checker x cfg t) w (Reaches d)
  unfolding get_current_admin_or_checker
  get_current_admin_or_checker-Reach = and_then _ _ (decode-Reach so_far x cfg t) (λ o v h.
      wp-require _ _ _
        (λ payload e.
          wp-require _ _ _
            (λ sub e1.
              wp-if (is_kind "admin" (lookup "type" payload))
                (λ kind. and_then _ _ (load_admin-Reach h sub) (λ a v1 h1. wp-pure _ h1))
                (λ other.
                  wp-if (is_kind "checker" (lookup "type" payload))
                    (λ kind. and_then _ _ (load_checker-Reach h sub) (λ a v1 h1. wp-pure _ h1))
                    (λ neither. wp-raise _ h)))
            (λ e1. h))
        (λ e. h))

module _ {d : Db} {w : World} (so_far : At d w) (x : Externals) (cfg : Settings) (t : String) where
  pub require_admin_role-Reach :
      (roles : List AdminRole) → Wp (require_admin_role x cfg roles t) w (Reaches d)
  unfolding require_admin_role
  require_admin_role-Reach roles =
      and_then _ _ (get_current_admin-Reach so_far x cfg t)
        (λ a v h. wp-raise_if _ _ _ (λ role. wp-pure _ h) (λ no_role. h))

  pub require_staff_admin_or_manager-Reach :
      Wp (require_staff_admin_or_manager x cfg t) w (Reaches d)
  unfolding require_staff_admin_or_manager
  require_staff_admin_or_manager-Reach =
      and_then _ _ (get_current_admin_or_checker-Reach so_far x cfg t)
        (λ u v h. require_user_role-Reach h u)

module _ {d : Db} {w : World} (so_far : At d w) where
  pub rate_limit-Reach : (n : ℕ) (key : String) → Wp (rate_limit n key) w (Reaches d)
  unfolding rate_limit
  rate_limit-Reach n key =
      wp-hit _ _ _ (wp-raise_if_last _ _ (λ allowed. so_far) (λ too_many. so_far))

  module _ (x : Externals) (cfg : Settings) where
    header_key-Reach : (h : Option String) → Wp (header_key x cfg h) w (Reaches d)
    unfolding header_key
    header_key-Reach none = wp-pure _ so_far
    header_key-Reach (some h) =
        wp-if (starts "Bearer " h)
          (λ bearer. and_then _ _ (decode-Reach so_far x cfg _) (λ p v k. wp-pure _ k))
          (λ other. wp-pure _ so_far)

    pub get_checker_rate_limit_key-Reach :
        (caller : Caller) → Wp (get_checker_rate_limit_key x cfg caller) w (Reaches d)
    unfolding get_checker_rate_limit_key
    get_checker_rate_limit_key-Reach caller =
        and_then _ _ (header_key-Reach caller.authorization) (λ k v h. wp-pure _ h)
