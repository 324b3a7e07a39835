-- ===== src/Deps.antt =====
-- app/core/deps.py: who makes a request, from the access token.
use vista_authen.Prelude.{
  String, Bool, false, not, ◌||◌, Option, none, some, List, [], ◌∷◌, ◌==◌, String_eq, if◌then◌else◌,
}
use vista_authen.Models.{
  Uuid, Admin, Checker, AdminRole, CheckerRole, Json, admin_role_eq, checker_role_eq, staff_admin,
  manager,
}
use vista_authen.Session.{
  M, pure, raise, query, require, raise_if, ◌>>=◌, ◌>>◌, http, value_error, bad_uuid, type_error,
  Exn,
}
use vista_authen.Config.{Settings}
use vista_authen.Externals.{Externals}
use vista_authen.Security.{lookup, decode_access_token}
use vista_authen.Python.UuidText.{parse_uuid}
use vista_authen.Rows.{get, admin_keyed, checker_keyed}

abbrev pub unauthorized : Exn
unauthorized = http 401

abbrev pub forbidden : Exn
forbidden = http 403

-- `payload.get("type") == kind`
abbrev pub is_kind : String → Option Json → Bool
is_kind kind (some (Json.text s)) = s == kind
is_kind kind _ = false

-- `payload.get("sub")`: absent, or null
abbrev pub claimed : Option Json → Option Json
claimed none = none
claimed (some Json.null) = none
claimed (some v) = some v

-- `uuid.UUID(value)`: a text that is no UUID is a ValueError, and what is no text has no `replace`
unfoldable pub uuid_claim : Json → M Uuid
uuid_claim (Json.text s) = require (parse_uuid s) (value_error bad_uuid)
uuid_claim _ = raise type_error

-- The row must be there and be active.
unfoldable pub active_admin : Option Admin → M Admin
active_admin none = raise unauthorized
active_admin (some a) = if not a.is_active then raise unauthorized else pure a

unfoldable pub active_checker : Option Checker → M Checker
active_checker none = raise unauthorized
active_checker (some c) = if not c.is_active then raise unauthorized else pure c

unfoldable pub load_admin : Json → M Admin
load_admin sub = do id ← uuid_claim sub; row ← query (λ d. get id d.admins); active_admin row

unfoldable pub load_checker : Json → M Checker
load_checker sub = do id ← uuid_claim sub; row ← query (λ d. get id d.checkers); active_checker row

module _ (x : Externals) (cfg : Settings) where
  unfoldable pub get_current_admin : String → M Admin
  get_current_admin credentials = do
    decoded ← decode_access_token x cfg credentials
    payload ← require decoded unauthorized
    raise_if (not (is_kind "admin" (lookup "type" payload))) unauthorized
    sub ← require (claimed (lookup "sub" payload)) unauthorized
    load_admin sub

  unfoldable pub get_current_checker : String → M Checker
  get_current_checker credentials = do
    decoded ← decode_access_token x cfg credentials
    payload ← require decoded unauthorized
    raise_if (not (is_kind "checker" (lookup "type" payload))) unauthorized
    sub ← require (claimed (lookup "sub" payload)) unauthorized
    load_checker sub

abbrev pub has_admin_role : AdminRole → List AdminRole → Bool
has_admin_role role [] = false
has_admin_role role (r ∷ rs) = role == r || has_admin_role role rs

abbrev pub has_checker_role : CheckerRole → List CheckerRole → Bool
has_checker_role role [] = false
has_checker_role role (r ∷ rs) = role == r || has_checker_role role rs

-- either kind of user
pub data User : Type 0 where
  admin : Admin → User
  checker : Checker → User

unfoldable pub require_user_role : User → M User
require_user_role (User.admin a) =
    if not (a.role == staff_admin) then raise forbidden else pure (User.admin a)
require_user_role (User.checker c) =
    if not (c.role == manager) then raise forbidden else pure (User.checker c)

module _ (x : Externals) (cfg : Settings) where
  unfoldable pub require_admin_role : List AdminRole → String → M Admin
  require_admin_role roles credentials = do
    a ← get_current_admin x cfg credentials
    raise_if (not (has_admin_role a.role roles)) forbidden
    pure a

  unfoldable pub require_checker_role : List CheckerRole → String → M Checker
  require_checker_role roles credentials = do
    c ← get_current_checker x cfg credentials
    raise_if (not (has_checker_role c.role roles)) forbidden
    pure c

  unfoldable pub get_current_admin_or_checker : String → M User
  get_current_admin_or_checker credentials = do
    decoded ← decode_access_token x cfg credentials
    payload ← require decoded unauthorized
    sub ← require (claimed (lookup "sub" payload)) unauthorized
    if is_kind "admin" (lookup "type" payload)
        then (do a ← load_admin sub; pure (User.admin a))
        else if is_kind "checker" (lookup "type" payload)
        then (do c ← load_checker sub; pure (User.checker c))
        else raise unauthorized

  unfoldable pub require_staff_admin_or_manager : String → M User
  require_staff_admin_or_manager credentials = do
    user ← get_current_admin_or_checker credentials
    require_user_role user
