-- ===== src/Services/Logging.antt =====
-- The audit entries that the services write: `_log_action` of ResidentService and of AccessService,
-- and AuditService.log.
use vista_authen.Prelude.{String, Option, none, some, ◌++◌, [], ◌∷◌}
use vista_authen.Models.{Uuid, Json, AuditLog, Details}
use vista_authen.Session.{M, pure, uuid4, server_now, ◌>>=◌, ◌>>◌}
use vista_authen.Python.UuidText.{str_uuid}
use vista_authen.Tables.{add_log}

-- AuditService.log
unfoldable pub log :
    String → Option Uuid → Option String → Option Uuid → Option Uuid → Option Details → M AuditLog
log action actor_id actor_role unit_id checker_id details = do
  id ← uuid4
  now ← server_now
  let entry : AuditLog = record {
    id = id;
    timestamp = now;
    action = action;
    actor_id = actor_id;
    actor_role = actor_role;
    unit_id = unit_id;
    checker_id = checker_id;
    details = details;
  }
  add_log entry
  pure entry

-- ResidentService._log_action
unfoldable pub log_resident_action :
    String → Option Uuid → String → Option Uuid → Details → M AuditLog
log_resident_action action actor_id actor_role unit_id details =
    log action actor_id (some actor_role) unit_id none (some details)

-- AccessService._log_action
abbrev pub with_resident : Option Uuid → Details → Details
with_resident none details = details
with_resident (some id) details = details ++ ("resident_id", Json.text (str_uuid id)) ∷ []

unfoldable pub log_scan_action : String → Uuid → Option Uuid → Option Uuid → Details → M AuditLog
log_scan_action action checker_id resident_id unit_id details =
    log action (some checker_id) (some "checker") unit_id none
      (some (with_resident resident_id details))
