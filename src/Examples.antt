-- ===== src/Examples.antt =====
-- One small building to run the program on: a unit for two, its owner with a device, a tenant who
-- has not yet registered one, a guard, and an administrator of residents.
pub mod Serving
pub mod Supervisor
pub mod Contending
pub mod Racing
pub mod Calls
pub mod Onboarding
pub mod Tokens
pub mod Seed
pub mod Failing
pub mod Keeping
pub mod Hosting
pub mod Scans
pub mod Residency
pub mod Staff
pub mod Upkeep
use vista_authen.Prelude.{
  ◌+◌, ◌≤◌, ◌≡◌, ◌≢◌, refl, String, true, false, none, some, List, [], ◌∷◌, arith, ◌==◌, String_eq,
  if◌then◌else◌,
}
use vista_authen.Prelude.Int.{pos}
use vista_authen.Models.{
  aware, BuildingUnit, Resident, Checker, Admin, ActivationToken, Json, Db, pending, active, guard,
  resident_admin,
}
use vista_authen.Session.{World, ok, ◌>>=◌}
use vista_authen.Config.{settings}
use vista_authen.Externals.{Externals, elliptic_curve, returns, key}
use vista_authen.Rows.{unit_keyed, get, has, put}
use vista_authen.Services.Logging.{log, log_resident_action}
use vista_authen.Security.{decode_access_token}
use vista_authen.Tables.{
  add_resident, resident_refused, add_token, token_refused, add_log, log_refused,
  scalar_one_or_none, active_resident_count,
}
use vista_authen.Lifecycle.Invariant.{IsSound}
use vista_authen.Lifecycle.{Reach}
use vista_authen.Lifecycle.Serving.{serve-Reach, serve-IsSound}
use vista_authen.Python.Strings.{split}
use vista_authen.Python.Numbers.{parse_int}
use vista_authen.Python.UuidText.{hex, parse_uuid}
use vista_authen.Python.Base64.{b64decode}
use vista_authen.Services.Crypto.{verify_signature}
use vista_authen.Services.Access.{verify}
use vista_authen.Services.Residents.{
  provision_in, ownership, new_resident, new_token, revoke_found, find_token, check_token,
  bind_device, revoke, register_device, as_revoked, activated, provision,
}
use vista_authen.Services.Cleanup.{cleanup_all}
use vista_authen.Services.Audit.{list_logs}
use vista_authen.Services.Accounts.{authenticate_checker, authenticate_admin}
use vista_authen.Routes.Requests.{Event, request, tick, serve}
use vista_authen.Routes.Requests as Requests
use vista_authen.Routes.Http.{with_session, or_bad_request}
use vista_authen.Deps.{get_current_admin, load_admin, uuid_claim, active_admin, require_admin_role}
use vista_authen.Scans.{Admits}
use vista_authen.Scans.Outcome.{Ends}
use vista_authen.Scans.Verifying.{verify_outcome}
use vista_authen.Scans.Admitting.{IsValidAnswer, verify-Admits}
use vista_authen.Residency.Revocation.{Bars, revoke-Bars}
use vista_authen.Residency.Activation.{Bound, register_device_binds}
use vista_authen.Services.Units.{update_capacity, delete}
use vista_authen.Residency.Capacity.{Resizes, update_capacity_lem, Deletes, delete_lem}
use vista_authen.Residency.Registration.{Registered, provision_registers}
use vista_authen.Residency.Refusals.{Unrecorded, provision-Unrecorded}
use vista_authen.Upkeep.Purges.{Purges, cleanup_all-Purges}
use vista_authen.Upkeep.Pages.{Pages, list_logs-Pages}
use vista_authen.Permissions.Roles.{Authorised, require_admin_role_authorises}
use vista_authen.Permissions.Passwords.{
  CheckerLogin, authenticate_checker_lem, AdminLogin, authenticate_admin_lem,
}

abbrev pub programs : Externals
programs = record {
  hash = λ salt p. ok p;
  verify_hash = λ p h. ok (p == h);
  jwt_encode = λ claims secret algorithm. "admin token";
  jwt_decode = λ now token secret algorithms.
      if token == "admin token"
      then some
          (("type", Json.text "admin") ∷ ("sub", Json.text "00000000000000000000000000000008") ∷ [])
      else none;
  PublicKey = Unit {0};
  load_pem_public_key = λ pem. key tt;
  class_of = λ k. elliptic_curve;
  verify = λ k signature payload scheme. returns;
  encode_dss_signature = λ r s. [];
  reload_updated_at = λ unit. ok unit.updated_at;
  collate = λ a b. true;
}

abbrev pub flat : BuildingUnit
flat = record {
  id = 1;
  unit_number = "A-101";
  max_residents = 2;
  created_at = aware 0;
  updated_at = aware 0;
}

abbrev pub owner : Resident
owner = record {
  id = 6;
  unit_id = 1;
  name = "Ada";
  public_key = some "pem";
  status = active;
  is_owner = true;
  phone = some "1";
  email = some "a";
  created_at = aware 0;
  revoked_at = none;
}

abbrev pub tenant : Resident
tenant = record {
  id = 5;
  unit_id = 1;
  name = "Bob";
  public_key = none;
  status = pending;
  is_owner = false;
  phone = none;
  email = none;
  created_at = aware 0;
  revoked_at = none;
}

abbrev pub invitation : ActivationToken
invitation = record {
  id = 7;
  resident_id = 5;
  token = "invitation";
  expires_at = aware 1000;
  used_at = none;
}

abbrev pub porter : Checker
porter = record {
  id = 9;
  username = "gate";
  hashed_password = "secret";
  role = guard;
  is_active = true;
  created_at = aware 0;
}

abbrev pub clerk : Admin
clerk = record {
  id = 8;
  username = "clerk";
  hashed_password = "secret";
  role = resident_admin;
  is_active = true;
  created_at = aware 0;
}

abbrev pub building : Db
building = record {
  units = flat ∷ [];
  residents = tenant ∷ owner ∷ [];
  checkers = porter ∷ [];
  admins = clerk ∷ [];
  audit_logs = [];
  activation_tokens = invitation ∷ [];
}

abbrev pub morning : World
morning = record {
  db = building;
  committed = building;
  clock = λ n. n;
  uuids = λ n. 100 + n;
  salts = λ n. n;
  db_now = aware 0;
  limiter = λ n per_minute key. true;
  ties = λ n entry. entry.id;
}

-- a scan of the owner's code, within the second
abbrev pub code : String
code = "V1|00000000000000000000000000000006|0|TWE="
