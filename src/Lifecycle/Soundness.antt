-- ===== src/Lifecycle/Soundness.antt =====
-- Every change that the specification allows keeps the invariant.
mod Units
mod Residents
use Units.{unit_added-IsSound, unit_changed-IsSound, unit_deleted-IsSound}
use Residents.{
  resident_added-IsSound, resident_changed-IsSound, token_added-IsSound, token_used-IsSound,
  tokens_purged-IsSound,
}
use vista_authen.Tables.{active_resident_count}
use vista_authen.Prelude.{All-select-head, ◌∷◌, [], ◌≡◌, true, ◌==◌, String_eq}
use vista_authen.Rows.{has, resident_keyed}
use vista_authen.Models.{Db}
use vista_authen.Lifecycle.{
  AuditLog, Admin, Checker, List, select, active_resident_count, ActivationToken, Step, Reach, here,
  next,
}
use vista_authen.Lifecycle.Invariant.{IsSound}

-- A change of the other tables.
other_tables-IsSound :
    (d : Db) (checkers : List Checker) (admins : List Admin) (audit_logs : List AuditLog)
    → IsSound d
    → IsSound (record d { checkers = checkers; admins = admins; audit_logs = audit_logs })
unfolding active_resident_count
other_tables-IsSound d checkers admins audit_logs s = record {
  unit_ids = s.unit_ids;
  resident_ids = s.resident_ids;
  token_ids = s.token_ids;
  homes = s.homes;
  holders = s.holders;
  room = s.room;
  one_owner = s.one_owner;
  residents_WellFormed = s.residents_WellFormed;
}

token_held :
    {d : Db}
    → IsSound d
    → (t : ActivationToken) → select (λ x. x.token == t.token) d.activation_tokens ≡ t ∷ []
    → has t.resident_id d.residents ≡ true
token_held {d} s t only = All-select-head _ _ d.activation_tokens s.holders only

pub Step-IsSound : {d e : Db} → Step d e → IsSound d → IsSound e
Step-IsSound (Step.log_added l h) s = other_tables-IsSound _ _ _ _ s
Step-IsSound (Step.logs_purged p) s = other_tables-IsSound _ _ _ _ s
Step-IsSound (Step.unit_added u h) s = unit_added-IsSound s u h
Step-IsSound (Step.unit_changed old u f n h) s = unit_changed-IsSound s old u f h
Step-IsSound (Step.unit_deleted i h) s = unit_deleted-IsSound s i h
Step-IsSound (Step.resident_added r a) s = resident_added-IsSound s r a
Step-IsSound (Step.resident_changed old r f t) s = resident_changed-IsSound s old r f t
Step-IsSound (Step.token_added t h u) s = token_added-IsSound s t h
Step-IsSound {d} (Step.token_used t now h u) s = token_used-IsSound s t now (token_held s t h)
Step-IsSound (Step.tokens_purged p) s = tokens_purged-IsSound s p
Step-IsSound (Step.checker_added c h) s = other_tables-IsSound _ _ _ _ s
Step-IsSound (Step.checker_changed old c f n) s = other_tables-IsSound _ _ _ _ s
Step-IsSound (Step.admin_added a h) s = other_tables-IsSound _ _ _ _ s

pub Reach-IsSound : {d e : Db} → Reach d e → IsSound d → IsSound e
Reach-IsSound here s = s
Reach-IsSound (next r st) s = Step-IsSound st (Reach-IsSound r s)
