-- ===== src/Examples/Upkeep.antt =====
-- The small building after a year: a token that was used, one that is still good, and four entries
-- of the audit log, of which two are old, two have one timestamp, and one names an empty unit.
use vista_authen.Prelude.{◌+◌, ◌*◌, ◌≤◌, ◌≡◌, refl, some, none, [], ◌∷◌, arith, length}
use vista_authen.Prelude.Sorting.{sort_by}
use vista_authen.Models.{aware, BuildingUnit, ActivationToken, AuditLog, Db}
use vista_authen.Session.{World, ok, raised, integrity_error, ◌>>=◌}
use vista_authen.Config.{settings}
use vista_authen.Rows.{get, unit_keyed}
use vista_authen.Tables.{active_resident_count, unit_referred}
use vista_authen.Services.Cleanup.{cleanup_all, purge_expired_tokens, purge_old_audit_logs}
use vista_authen.Services.Units.{delete, delete_of}
use vista_authen.Services.Audit.{list_logs}
use vista_authen.Residency.Capacity.{Deletes, delete_lem}
use vista_authen.Upkeep.Purges.{Purges, cleanup_all-Purges}
use vista_authen.Upkeep.Pages.{Pages, IsHistory, history, list_logs-Pages}
use vista_authen.Upkeep.Joining.{joined, list_logs-joined}
use vista_authen.Examples.{flat, invitation, building, morning}

abbrev entry : AuditLog
entry = record {
  id = 201;
  timestamp = aware 0;
  action = "unit_opened";
  actor_id = none;
  actor_role = none;
  unit_id = some 2;
  checker_id = none;
  details = none;
}

abbrev later_entry : AuditLog
later_entry = record entry { id = 202; timestamp = aware 1; action = "unit_closed" }

-- ninety days are 7776000000000 microseconds
abbrev recent_entry : AuditLog
recent_entry = record entry { id = 203; timestamp = aware 31536000000000; unit_id = none }

abbrev twin_entry : AuditLog
twin_entry = record recent_entry { id = 204 }

abbrev empty_flat : BuildingUnit
empty_flat = record flat { id = 2; unit_number = "A-102" }

abbrev fresh_token : ActivationToken
fresh_token = record invitation { id = 12; expires_at = aware 40000000000000; token = "fresh" }

abbrev year : Db
year = record building {
  units = empty_flat ∷ flat ∷ [];
  audit_logs = twin_entry ∷ recent_entry ∷ later_entry ∷ entry ∷ [];
  activation_tokens = fresh_token ∷ record fresh_token { id = 13; used_at = some (aware 5) } ∷ [];
}

abbrev year_end : World
year_end = record morning { db = year; committed = year; clock = λ n. 32000000000000 + n }

cleanup_all-Purges_example :
    Purges settings year_end (cleanup_all settings year_end).0 (cleanup_all settings year_end).1
cleanup_all-Purges_example = cleanup_all-Purges settings year_end

-- It removes the used token and the two old entries.
purged_counts : (cleanup_all settings year_end).0 ≡ ok (1, 2)
unfolding cleanup_all purge_expired_tokens purge_old_audit_logs ◌>>=◌
purged_counts = refl

list_logs-Pages_example :
    Pages none none none 2 1 year_end
      (list_logs none none none 2 1 year_end).0
      (list_logs none none none 2 1 year_end).1
list_logs-Pages_example = list_logs-Pages none none none 2 1 year_end

two_entries : length (history year none (some 2) none) ≤ 2 * 1
unfolding sort_by
two_entries = ground arith

list_logs-joined_example :
    IsHistory year none (some 2) none (joined none (some 2) none 1 (λ n. year_end) 2)
list_logs-joined_example =
    list_logs-joined none (some 2) none 1 year (λ n. year_end) 2 (refl, (refl, tt)) (λ k. refl)
      two_entries

delete_example : Deletes 2 year_end (delete 2 year_end).0 (delete 2 year_end).1
delete_example = delete_lem 2 year_end

-- Nobody has lived in the empty unit, but the audit log names it.
delete_refused : (delete 2 year_end).0 ≡ raised integrity_error
unfolding delete delete_of get active_resident_count unit_referred ◌>>=◌
delete_refused = refl
