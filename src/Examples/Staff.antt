-- ===== src/Examples/Staff.antt =====
-- Logins and roles in the small building.
use vista_authen.Prelude.{◌≡◌, refl, [], ◌∷◌, String_eq}
use vista_authen.Models.{resident_admin}
use vista_authen.Session.{ok, ◌>>=◌}
use vista_authen.Config.{settings}
use vista_authen.Rows.{unit_keyed, get}
use vista_authen.Security.{decode_access_token}
use vista_authen.Python.UuidText.{parse_uuid}
use vista_authen.Services.Accounts.{authenticate_checker, authenticate_admin}
use vista_authen.Deps.{get_current_admin, load_admin, uuid_claim, active_admin, require_admin_role}
use vista_authen.Permissions.Roles.{Authorised, require_admin_role_authorises}
use vista_authen.Permissions.Passwords.{
  CheckerLogin, authenticate_checker_lem, AdminLogin, authenticate_admin_lem,
}
use vista_authen.Examples.{programs, clerk, morning}

authenticate_checker_example :
    CheckerLogin programs "gate" "secret" morning
      (authenticate_checker programs "gate" "secret" morning).0
      (authenticate_checker programs "gate" "secret" morning).1
authenticate_checker_example = authenticate_checker_lem programs "gate" "secret" morning

authenticate_admin_example :
    AdminLogin programs "clerk" "secret" morning
      (authenticate_admin programs "clerk" "secret" morning).0
      (authenticate_admin programs "clerk" "secret" morning).1
authenticate_admin_example = authenticate_admin_lem programs "clerk" "secret" morning

clerk_authorised :
    require_admin_role programs settings (resident_admin ∷ []) "admin token" morning ≡ (
      ok clerk,
      (require_admin_role programs settings (resident_admin ∷ []) "admin token" morning).1,
    )
unfolding ◌>>=◌ require_admin_role get_current_admin decode_access_token load_admin uuid_claim
    active_admin parse_uuid get
clerk_authorised = refl

require_admin_role_authorises_example :
    Authorised programs settings morning "admin token" (resident_admin ∷ []) clerk
require_admin_role_authorises_example =
    require_admin_role_authorises programs settings (resident_admin ∷ []) "admin token" morning
      (require_admin_role programs settings (resident_admin ∷ []) "admin token" morning).1 clerk
      clerk_authorised
