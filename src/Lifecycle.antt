-- ===== src/Lifecycle.antt =====
-- The changes that the services may make to the tables, each with the guard under which it is
-- allowed: an abstract specification of app/services over the tables of app/models/models.py.
pub mod Logs
pub mod Provisioning
pub mod Devices
pub mod Capacity
pub mod Staff
pub mod Scans
pub mod Guards
pub mod Endpoints
pub mod Serving
pub mod Invariant
pub mod Distinct
pub mod Finality
pub mod Uniqueness
pub mod Soundness
use vista_authen.Prelude.{
  ℕ, ◌≤◌, ◌<◌, ◌≡◌, String, Bool, true, false, Option, none, some, List, [], ◌∷◌, ◌==◌, String_eq,
  find, select,
}
use vista_authen.Models.{
  Uuid, BuildingUnit, Resident, Checker, Admin, AuditLog, ActivationToken, Db, pending,
}
use vista_authen.Rows.{get, put, without, unit_keyed, resident_keyed, checker_keyed, token_keyed}
use vista_authen.Tables.{
  unit_taken, resident_refused, checker_taken, admin_taken, log_refused, token_refused,
  unit_referred, active_resident_count,
}
use vista_authen.Python.Strings.{is_blank, strip}
use vista_authen.Services.Residents.{owns, activated, as_revoked, consumed}

-- What may become of a resident.
pub data Transition (old : Resident) : Resident → Type 0 where
  activation : (pem : String) → old.status ≡ pending → Transition old (activated pem old)
  revocation : (now : ℕ) → Transition old (as_revoked now old)
  phone_set :
      (s : String)
      → old.is_owner ≡ true
      → is_blank s ≡ false
      → Transition old (record old { phone = some (strip s) })
  email_set :
      (s : String)
      → old.is_owner ≡ true
      → is_blank s ≡ false
      → Transition old (record old { email = some (strip s) })

-- The contact details of a new resident: an owner has both, anyone else has none.
pub record HasContact (r : Resident) : Type 0 where
  pub owner :
      r.is_owner ≡ true
      → (p : String) × (e : String) × (r.phone ≡ some (strip p))
        × (r.email ≡ some (strip e))
        × (is_blank p ≡ false)
        × (is_blank e ≡ false)
  pub other : r.is_owner ≡ false → (r.phone ≡ none) × (r.email ≡ none)

pub record Admissible (d : Db) (r : Resident) : Type 0 where
  pub home :
      (u : BuildingUnit) × (get r.unit_id d.units ≡ some u)
      × (active_resident_count r.unit_id d < u.max_residents)
  pub accepted : resident_refused d r ≡ false
  pub fresh : (r.status ≡ pending) × (r.public_key ≡ none)
  pub first_owner : r.is_owner ≡ true → find (owns r.unit_id) d.residents ≡ none
  pub contact : HasContact r

pub data Step (d : Db) : Db → Type 0 where
  log_added :
      (l : AuditLog) → log_refused d l ≡ false → Step d (record d { audit_logs = l ∷ d.audit_logs })
  logs_purged :
      (keep : AuditLog → Bool) → Step d (record d { audit_logs = select keep d.audit_logs })
  unit_added :
      (u : BuildingUnit) → unit_taken d u ≡ false → Step d (record d { units = u ∷ d.units })
  unit_changed :
      (old u : BuildingUnit)
      → get u.id d.units ≡ some old
      → u.unit_number ≡ old.unit_number
      → active_resident_count u.id d ≤ u.max_residents
      → Step d (record d { units = put u d.units })
  unit_deleted :
      (i : Uuid) → unit_referred d i ≡ false → Step d (record d { units = without i d.units })
  resident_added :
      (r : Resident) → Admissible d r → Step d (record d { residents = r ∷ d.residents })
  resident_changed :
      (old r : Resident)
      → get old.id d.residents ≡ some old
      → Transition old r
      → Step d (record d { residents = put r d.residents })
  token_added :
      (t : ActivationToken)
      → token_refused d t ≡ false
      → t.used_at ≡ none
      → Step d (record d { activation_tokens = t ∷ d.activation_tokens })
  token_used :
      (t : ActivationToken) (now : ℕ)
      → select (λ x. x.token == t.token) d.activation_tokens ≡ t ∷ []
      → t.used_at ≡ none
      → Step d (record d { activation_tokens = put (consumed now t) d.activation_tokens })
  tokens_purged :
      (keep : ActivationToken → Bool)
      → Step d (record d { activation_tokens = select keep d.activation_tokens })
  checker_added :
      (c : Checker) → checker_taken d c ≡ false → Step d (record d { checkers = c ∷ d.checkers })
  checker_changed :
      (old c : Checker)
      → get c.id d.checkers ≡ some old
      → c.username ≡ old.username
      → Step d (record d { checkers = put c d.checkers })
  admin_added : (a : Admin) → admin_taken d a ≡ false → Step d (record d { admins = a ∷ d.admins })

-- Any number of changes.
pub data Reach (d : Db) : Db → Type 0 where
  here : Reach d d
  next : {e f : Db} → Reach d e → Step e f → Reach d f

pub Reach-trans : {d e f : Db} → Reach d e → Reach e f → Reach d f
Reach-trans r here = r
Reach-trans r (next s st) = next (Reach-trans r s) st

pub one-Step : {d e : Db} → Step d e → Reach d e
one-Step st = next here st
