-- ===== src/Routes/Staff.antt =====
-- app/routes/checkers.py and app/routes/auth.py
use vista_authen.Prelude.{String, Bool, Option, List, [], ◌∷◌, map}
use vista_authen.Models.{
  Uuid, Checker, CheckerRole, DateTime, Json, Details, staff_admin, admin_role_value,
  checker_role_value,
}
use vista_authen.Session.{M, pure, require, ◌>>=◌, ◌>>◌}
use vista_authen.Config.{Settings}
use vista_authen.Externals.{Externals}
use vista_authen.Security.{create_access_token}
use vista_authen.Deps.{require_admin_role, unauthorized}
use vista_authen.Python.UuidText.{str_uuid}
use vista_authen.Services.Accounts as Accounts
use vista_authen.Limiter.{Caller, rate_limit}
use vista_authen.Routes.Bodies.{fits_checker_create}
use vista_authen.Routes.Http.{validate, or_bad_request, or_not_found, uuid_arg}

-- CheckerRead
pub record CheckerRead : Type 0 where
  pub id : String
  pub username : String
  pub role : CheckerRole
  pub is_active : Bool
  pub created_at : DateTime

abbrev pub read_checker : Checker → CheckerRead
read_checker c = record {
  id = str_uuid c.id;
  username = c.username;
  role = c.role;
  is_active = c.is_active;
  created_at = c.created_at;
}

-- TokenResponse
pub record TokenResponse : Type 0 where
  pub access_token : String
  pub token_type : String
  pub role : String

abbrev bearer : String → String → TokenResponse
bearer token role = record { access_token = token; token_type = "bearer"; role = role }

-- the claims of an access token
abbrev pub claims : Uuid → String → String → Details
claims id role kind =
    ("sub", Json.text (str_uuid id)) ∷ ("role", Json.text role) ∷ ("type", Json.text kind) ∷ []

module _ (x : Externals) (cfg : Settings) where
  unfoldable pub create_checker : String → String → String → CheckerRole → M CheckerRead
  create_checker credentials username password role = do
    require_admin_role x cfg (staff_admin ∷ []) credentials
    validate (fits_checker_create username password)
    checker ← or_bad_request (Accounts.create_checker x username password role)
    pure (read_checker checker)

  unfoldable pub list_checkers : String → M (List CheckerRead)
  list_checkers credentials = do
    require_admin_role x cfg (staff_admin ∷ []) credentials
    checkers ← Accounts.list_checkers
    pure (map read_checker checkers)

  unfoldable pub update_checker : String → String → Option CheckerRole → Option Bool → M CheckerRead
  update_checker credentials checker_id role is_active = do
    require_admin_role x cfg (staff_admin ∷ []) credentials
    id ← uuid_arg checker_id
    row ← Accounts.update_checker id role is_active
    checker ← or_not_found row
    pure (read_checker checker)

  unfoldable pub admin_login : Caller → String → String → M TokenResponse
  admin_login caller username password = do
    rate_limit 5 caller.address
    found ← Accounts.authenticate_admin x username password
    admin ← require found unauthorized
    token ← create_access_token x cfg (claims admin.id (admin_role_value admin.role) "admin")
    pure (bearer token (admin_role_value admin.role))

  unfoldable pub checker_login : Caller → String → String → M TokenResponse
  checker_login caller username password = do
    rate_limit 5 caller.address
    found ← Accounts.authenticate_checker x username password
    checker ← require found unauthorized
    token ←
        create_access_token x cfg (claims checker.id (checker_role_value checker.role) "checker")
    pure (bearer token (checker_role_value checker.role))
