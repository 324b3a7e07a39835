-- ===== src/Examples/Tokens.antt =====
-- Tokens in the small building, and a caller without a clearance.
use vista_authen.Prelude.{
  ◌≡◌, ◌≢◌, Bool-cases, inl, inr, false, refl, sym, some, none, [], ◌∷◌, ◌⊎◌, ◌==◌, String,
  String_eq, if◌then◌else◌, arith,
}
use text.Mathlib.TextEquality.{eq_iff}
use vista_authen.Models.{resident_admin, admin_role_eq, Details}
use vista_authen.Session.{ok, raised, http, ◌>>=◌}
use vista_authen.Config.{settings}
use vista_authen.Externals.{Externals}
use vista_authen.Rows.{get, admin_keyed, checker_keyed}
use vista_authen.Security.{create_access_token, verify_password}
use vista_authen.Python.UuidText.{str_uuid}
use vista_authen.Tables.{scalar_one_or_none}
use vista_authen.Services.Accounts.{
  authenticate_admin, admin_by_name, admit_admin, authenticate_checker, checker_by_name,
  admit_checker,
}
use vista_authen.Deps.{require_admin_role, get_current_checker, get_current_admin}
use vista_authen.Limiter.{Caller, rate_limit}
use vista_authen.Routes.Staff.{TokenResponse, claims, admin_login, checker_login}
use vista_authen.Routes.Requests.{Request, handle}
use vista_authen.Routes.Requests as Requests
use vista_authen.Permissions.Clearance.{Cleared, clearance, opened, TurnsAway, handle-TurnsAway}
use vista_authen.Permissions.Opening.{TokensOpen}
use vista_authen.Permissions.Accepting.{admin_claims, checker_claims}
use vista_authen.Permissions.Doors.{checker_login_accepted}
use vista_authen.Permissions.Tokens.{admin_login_accepted}
use vista_authen.Examples.{programs, morning, clerk, porter}

-- a unit's capacity, changed by an administrator of residents
abbrev overreach : Request
overreach = Requests.update_unit_capacity "admin token" "00000000000000000000000000000001" 9

handle-TurnsAway_example :
    Cleared programs settings (opened morning) (clearance overreach)
    ⊎ TurnsAway morning (handle programs settings overreach morning)
handle-TurnsAway_example = handle-TurnsAway programs settings overreach morning

-- The one token that there is stands for the clerk.
abbrev clerk_claims : Details
clerk_claims = claims 8 "resident_admin" "admin"

abbrev with_tokens : Externals
with_tokens = record programs {
  jwt_decode =
      λ now token secret algorithms. if token == "admin token" then some clerk_claims else none;
}

differs : (s t : String) → s ≢ t → (s == t) ≡ false
differs s t other = elim (Bool-cases (s == t)) [
  | inl same ↦ absurd (other ((eq_iff s t).0 same))
  | inr apart ↦ apart
]

tokens_open : TokensOpen with_tokens settings (admin_claims clerk)
unfolding str_uuid
tokens_open issued now fresh = record {
  received = clerk_claims;
  decodes = refl;
  unchanged = λ key other.
      let apart : ("exp" == key) ≡ false = differs "exp" key (λ e. other (sym e)) in ground arith;
}

abbrev at_desk : Caller
at_desk = record { authorization = none; address = "10.0.0.1" }

clerk_token : TokenResponse
clerk_token = record {
  access_token = "admin token";
  token_type = "bearer";
  role = "resident_admin";
}

clerk_logs_in :
    admin_login with_tokens settings at_desk "clerk" "secret" morning
    ≡ (ok clerk_token, (admin_login with_tokens settings at_desk "clerk" "secret" morning).1)
unfolding admin_login rate_limit authenticate_admin admin_by_name scalar_one_or_none admit_admin
    verify_password create_access_token ◌>>=◌ clerk_token
clerk_logs_in = refl

clerk_there : get 8 morning.db.admins ≡ some clerk
unfolding get
clerk_there = refl

admin_login_accepted_example :
    (require_admin_role with_tokens settings (resident_admin ∷ []) "admin token" morning).0
    ≡ ok clerk
unfolding clerk_token
admin_login_accepted_example =
    admin_login_accepted with_tokens settings at_desk "clerk" "secret" clerk morning
      (admin_login with_tokens settings at_desk "clerk" "secret" morning).1 morning clerk_token
      (resident_admin ∷ []) tokens_open refl (omega arith) clerk_logs_in clerk_there refl
      (omega arith)

-- The one token that there is stands for the porter.
abbrev porter_tokens : Externals
porter_tokens = record programs {
  jwt_decode = λ now token secret algorithms.
      if token == "admin token" then some (checker_claims porter) else none;
}

porter_tokens_open : TokensOpen porter_tokens settings (checker_claims porter)
unfolding str_uuid
porter_tokens_open issued now fresh = record {
  received = checker_claims porter;
  decodes = refl;
  unchanged = λ key other.
      let apart : ("exp" == key) ≡ false = differs "exp" key (λ e. other (sym e)) in ground arith;
}

porter_token : TokenResponse
porter_token = record { access_token = "admin token"; token_type = "bearer"; role = "guard" }

porter_logs_in :
    checker_login porter_tokens settings at_desk "gate" "secret" morning
    ≡ (ok porter_token, (checker_login porter_tokens settings at_desk "gate" "secret" morning).1)
unfolding checker_login rate_limit authenticate_checker checker_by_name scalar_one_or_none
    admit_checker verify_password create_access_token ◌>>=◌ porter_token
porter_logs_in = refl

porter_there : get 9 morning.db.checkers ≡ some porter
unfolding get
porter_there = refl

checker_login_accepted_example :
    ((get_current_checker porter_tokens settings "admin token" morning).0 ≡ ok porter)
    × ((get_current_admin porter_tokens settings "admin token" morning).0 ≡ raised (http 401))
unfolding porter_token
checker_login_accepted_example =
    checker_login_accepted porter_tokens settings at_desk "gate" "secret" porter morning
      (checker_login porter_tokens settings at_desk "gate" "secret" morning).1 morning porter_token
      porter_tokens_open refl (omega arith) porter_logs_in porter_there (omega arith)
