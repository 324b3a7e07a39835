-- ===== src/Examples/Supervisor.antt =====
-- A staff admin reads the audit log of the small building.
use vista_authen.Prelude.{◌≡◌, ◌≤◌, refl, none, some, List, [], ◌∷◌, length, String_eq}
use vista_authen.Prelude.Sorting.{sort_by}
use vista_authen.Models.{AuditLog, aware, staff_admin, admin_role_eq}
use vista_authen.Session.{World, ok, ◌>>=◌}
use vista_authen.Config.{settings}
use vista_authen.Rows.{get}
use vista_authen.Security.{decode_access_token}
use vista_authen.Deps.{
  load_admin, uuid_claim, active_admin, get_current_admin_or_checker, require_user_role,
  require_staff_admin_or_manager,
}
use vista_authen.Python.UuidText.{parse_uuid}
use vista_authen.Services.Audit.{list_logs}
use vista_authen.Routes.Http.{validate}
use vista_authen.Routes.Scans.{AuditLogRead, read_log, optional_uuid, list_audit_logs}
use vista_authen.Upkeep.Bounds.{length-list_audit_logs}
use vista_authen.Examples.{programs, building, morning, clerk}

abbrev arrival : AuditLog
arrival = record {
  id = 40;
  timestamp = aware 5;
  action = "qr_verified";
  actor_id = some 9;
  actor_role = some "checker";
  unit_id = some 1;
  checker_id = none;
  details = none;
}

abbrev evening : World
evening = record morning {
  db = record building {
    admins = record clerk { role = staff_admin } ∷ [];
    audit_logs = arrival ∷ [];
  };
}

abbrev shown : List AuditLogRead
shown = read_log arrival ∷ []

abbrev later : World
later = (list_audit_logs programs settings "admin token" none none none 1 20 evening).1

log_shown :
    list_audit_logs programs settings "admin token" none none none 1 20 evening ≡ (ok shown, later)
unfolding ◌>>=◌ list_audit_logs require_staff_admin_or_manager get_current_admin_or_checker
    decode_access_token load_admin uuid_claim active_admin require_user_role parse_uuid get validate
    optional_uuid list_logs sort_by
log_shown = refl

length-list_audit_logs_example : (length shown ≤ 20) × (20 ≤ 100) × (1 ≤ 1)
length-list_audit_logs_example =
    length-list_audit_logs programs settings "admin token" none none none 1 20 evening later shown
      log_shown
