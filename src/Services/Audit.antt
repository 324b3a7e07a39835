-- ===== src/Services/Audit.antt =====
-- app/services/audit_service.py: the filtered, paginated list; AuditService.log is in Logging.
use vista_authen.Prelude.{
  ◌||◌, ℕ, ◌-◌, ◌*◌, String, Bool, true, false, ◌&&◌, Option, none, some, List, ◌==◌, ℕ_eq,
  String_eq, select, leb, ltb, length, take, drop,
}
use vista_authen.Prelude.Sorting.{sort_by}
use vista_authen.Models.{Uuid, AuditLog, micros}
use vista_authen.Python.Strings.{is_empty}
use vista_authen.Session.{M, pure, query, tie_order, ◌>>=◌}

-- `if action: query.where(…)`: no filter for `None` and for an empty text
abbrev pub action_filter : Option String → AuditLog → Bool
action_filter none l = true
action_filter (some a) l = is_empty a || l.action == a

abbrev pub unit_filter : Option Uuid → AuditLog → Bool
unit_filter none l = true
unit_filter (some i) l = elim l.unit_id [ none ↦ false | some j ↦ j == i ]

abbrev pub role_filter : Option String → AuditLog → Bool
role_filter none l = true
role_filter (some r) l = is_empty r || elim l.actor_role [ none ↦ false | some q ↦ q == r ]

abbrev pub matches : Option String → Option Uuid → Option String → AuditLog → Bool
matches action unit_id actor_role l =
    action_filter action l && unit_filter unit_id l && role_filter actor_role l

-- ORDER BY timestamp DESC, where `rank` is the database's own order of the entries with one timestamp
abbrev pub newer : (AuditLog → ℕ) → AuditLog → AuditLog → Bool
newer rank a b =
    ltb (micros b.timestamp) (micros a.timestamp)
    || (leb (micros b.timestamp) (micros a.timestamp) && leb (rank a) (rank b))

-- AuditService.list_logs
unfoldable pub list_logs :
    Option String → Option Uuid → Option String → ℕ → ℕ → M (List AuditLog × ℕ)
list_logs action unit_id actor_role page page_size = do
  rows ← query (λ d. select (matches action unit_id actor_role) d.audit_logs)
  rank ← tie_order
  pure (take page_size (drop ((page - 1) * page_size) (sort_by (newer rank) rows)), length rows)
