-- ===== src/Routes/Scans.antt =====
-- app/routes/access.py, app/routes/audit.py and app/routes/cleanup.py
use vista_authen.Prelude.{ℕ, String, Option, none, some, List, [], ◌∷◌, map, ◌==◌, if◌then◌else◌}
use vista_authen.Models.{
  DateTime, Details, Uuid, Checker, AuditLog, manager, setup_admin, staff_admin, checker_role_eq,
}
use vista_authen.Session.{M, pure, ◌>>=◌, ◌>>◌}
use vista_authen.Config.{Settings}
use vista_authen.Externals.{Externals}
use vista_authen.Deps.{require_admin_role, get_current_checker, require_staff_admin_or_manager}
use vista_authen.Python.Strings.{is_empty}
use vista_authen.Services.Access.{ScanResult, plain, extended, status_of, verify}
use vista_authen.Services.Audit.{list_logs}
use vista_authen.Services.Cleanup.{cleanup_all}
use mathlib.Core.Option
use vista_authen.Limiter.{Caller, get_checker_rate_limit_key, rate_limit}
use vista_authen.Python.UuidText.{str_uuid}
use vista_authen.Routes.Bodies.{fits_verify, fits_page}
use vista_authen.Routes.Http.{validate, uuid_arg}

-- AccessVerifyResponseGuard and AccessVerifyResponseManager; a manager's answer has a telephone
-- number, which the endpoint leaves at its default.
pub data VerifyResponse : Type 0 where
  for_guard : (status : String) → VerifyResponse
  for_manager : (status : String) (resident_name unit phone : Option String) → VerifyResponse

-- `result.get("resident_name")`, `result.get("unit")`
abbrev pub name_in : ScanResult → Option String
name_in (plain status) = none
name_in (extended status name unit phone) = some name

abbrev pub unit_in : ScanResult → Option String
unit_in (plain status) = none
unit_in (extended status name unit phone) = some unit

abbrev pub respond : Checker → ScanResult → VerifyResponse
respond checker result =
    if checker.role == manager
    then for_manager (status_of result) (name_in result) (unit_in result) none
    else for_guard (status_of result)

-- `uuid.UUID(unit_id) if unit_id else None`
unfoldable pub optional_uuid : Option String → M (Option Uuid)
optional_uuid none = pure none
optional_uuid (some s) = if is_empty s then pure none else (do id ← uuid_arg s; pure (some id))

-- AuditLogRead
pub record AuditLogRead : Type 0 where
  pub id : String
  pub timestamp : DateTime
  pub action : String
  pub actor_id : Option String
  pub actor_role : Option String
  pub unit_id : Option String
  pub details : Option Details

abbrev pub read_log : AuditLog → AuditLogRead
read_log l = record {
  id = str_uuid l.id;
  timestamp = l.timestamp;
  action = l.action;
  actor_id = Option.map str_uuid l.actor_id;
  actor_role = l.actor_role;
  unit_id = Option.map str_uuid l.unit_id;
  details = l.details;
}

module _ (x : Externals) (cfg : Settings) where
  unfoldable pub verify_qr : Caller → String → String → M VerifyResponse
  verify_qr caller credentials qr_payload = do
    checker ← get_current_checker x cfg credentials
    validate (fits_verify qr_payload)
    key ← get_checker_rate_limit_key x cfg caller
    rate_limit 30 key
    result ← verify x cfg qr_payload checker.id
    pure (respond checker result)

  unfoldable pub list_audit_logs :
      String → Option String → Option String → Option String → ℕ → ℕ → M (List AuditLogRead)
  list_audit_logs credentials action unit_id actor_role page page_size = do
    require_staff_admin_or_manager x cfg credentials
    validate (fits_page page page_size)
    unit ← optional_uuid unit_id
    (logs, total) ← list_logs action unit actor_role page page_size
    pure (map read_log logs)

  unfoldable pub trigger_cleanup : String → M (ℕ × ℕ)
  trigger_cleanup credentials = do
    require_admin_role x cfg (setup_admin ∷ staff_admin ∷ []) credentials
    cleanup_all cfg
