-- ===== src/Scans/Outcome.antt =====
-- How a scan ends: one audit entry that fits the answer, and no other change.
use vista_authen.Prelude.{◌≡◌, ◌≢◌, some, ◌∷◌}
use vista_authen.Models.{Uuid, Db, AuditLog}
use vista_authen.Session.{World, Result, ok, raised, integrity_error}
use vista_authen.Services.Access.{ScanResult, status_of}

-- The entry of a scan by checker `c` whose answer is `res`.
pub record Recorded (c : Uuid) (res : ScanResult) (l : AuditLog) : Type 0 where
  pub actor : l.actor_id ≡ some c
  pub role : l.actor_role ≡ some "checker"
  pub success : status_of res ≡ "valid" → l.action ≡ "scan_success"
  pub failure : status_of res ≢ "valid" → l.action ≢ "scan_success"

-- From the tables `d`, where `J` justifies an answer `valid`.
abbrev pub Ends : Uuid → Db → Type 0 → Result ScanResult → World → Type 0
Ends c d J (ok res) v =
    (l : AuditLog) × (v.db ≡ record d { audit_logs = l ∷ d.audit_logs })
    × Recorded c res l
    × (status_of res ≡ "valid" → J)
Ends c d J (raised e) v = (e ≡ integrity_error) × (v.db ≡ d)
