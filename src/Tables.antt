-- ===== src/Tables.antt =====
-- `db.add` with the flush that follows it, for each table: the primary key, the `unique=True`
-- columns and the foreign keys of app/models/models.py are checked by the database, which raises
-- IntegrityError. The queries that several services share stand here too.
pub mod Adds
use vista_authen.Prelude.{
  ℕ, Bool, true, false, not, ◌&&◌, ◌||◌, Option, none, some, ◌∷◌, ◌==◌, ℕ_eq, String_eq, any, count,
  List, [],
}
use vista_authen.Models.{
  Uuid, BuildingUnit, Resident, Checker, Admin, AuditLog, ActivationToken, Db, revoked, status_eq,
}
use vista_authen.Session.{
  M, pure, raise, query, raise_if, modify, integrity_error, multiple_results, ◌>>=◌, ◌>>◌,
}
use vista_authen.Rows.{
  has, unit_keyed, resident_keyed, checker_keyed, admin_keyed, audit_log_keyed, token_keyed,
}

-- a foreign key that may be null
abbrev pub refers : Option Uuid → (Uuid → Bool) → Bool
refers none present = true
refers (some i) present = present i

unfoldable pub unit_taken : Db → BuildingUnit → Bool
unit_taken d u = has u.id d.units || any (λ x. x.unit_number == u.unit_number) d.units

unfoldable pub add_unit : BuildingUnit → M (Unit {0})
add_unit u = do
  refused ← query (λ d. unit_taken d u)
  raise_if refused integrity_error
  modify (λ d. record d { units = u ∷ d.units })

unfoldable pub resident_refused : Db → Resident → Bool
resident_refused d r = has r.id d.residents || not (has r.unit_id d.units)

unfoldable pub add_resident : Resident → M (Unit {0})
add_resident r = do
  refused ← query (λ d. resident_refused d r)
  raise_if refused integrity_error
  modify (λ d. record d { residents = r ∷ d.residents })

unfoldable pub checker_taken : Db → Checker → Bool
checker_taken d c = has c.id d.checkers || any (λ x. x.username == c.username) d.checkers

unfoldable pub add_checker : Checker → M (Unit {0})
add_checker c = do
  refused ← query (λ d. checker_taken d c)
  raise_if refused integrity_error
  modify (λ d. record d { checkers = c ∷ d.checkers })

unfoldable pub admin_taken : Db → Admin → Bool
admin_taken d a = has a.id d.admins || any (λ x. x.username == a.username) d.admins

unfoldable pub add_admin : Admin → M (Unit {0})
add_admin a = do
  refused ← query (λ d. admin_taken d a)
  raise_if refused integrity_error
  modify (λ d. record d { admins = a ∷ d.admins })

unfoldable pub log_refused : Db → AuditLog → Bool
log_refused d l =
    has l.id d.audit_logs
    || not (refers l.unit_id (λ i. has i d.units))
    || not (refers l.checker_id (λ i. has i d.checkers))

unfoldable pub add_log : AuditLog → M (Unit {0})
add_log l = do
  refused ← query (λ d. log_refused d l)
  raise_if refused integrity_error
  modify (λ d. record d { audit_logs = l ∷ d.audit_logs })

unfoldable pub token_refused : Db → ActivationToken → Bool
token_refused d t =
    has t.id d.activation_tokens
    || any (λ x. x.resident_id == t.resident_id) d.activation_tokens
    || any (λ x. x.token == t.token) d.activation_tokens
    || not (has t.resident_id d.residents)

unfoldable pub add_token : ActivationToken → M (Unit {0})
add_token t = do
  refused ← query (λ d. token_refused d t)
  raise_if refused integrity_error
  modify (λ d. record d { activation_tokens = t ∷ d.activation_tokens })

-- Deleting a unit: the ORM would set `unit_id` of its residents to null, which the column refuses,
-- and the audit log's foreign key refuses it too.
abbrev pub logged_for : Uuid → AuditLog → Bool
logged_for i l = elim l.unit_id [ none ↦ false | some j ↦ j == i ]

-- `Resident.unit_id` may not be null and is a foreign key
abbrev pub lives_in : Uuid → Resident → Bool
lives_in i r = r.unit_id == i

-- whether the database refuses that the unit goes
unfoldable pub unit_referred : Db → Uuid → Bool
unit_referred d i = any (lives_in i) d.residents || any (logged_for i) d.audit_logs

-- a resident that counts against the capacity of a unit
abbrev pub occupies : Uuid → Resident → Bool
occupies i r = r.unit_id == i && not (r.status == revoked)

-- `_active_resident_count`, of ResidentService and of UnitService
unfoldable pub active_resident_count : Uuid → Db → ℕ
active_resident_count i d = count (occupies i) d.residents

-- `result.scalar_one_or_none()`
unfoldable pub scalar_one_or_none : {A : Type 0} → List A → M (Option A)
scalar_one_or_none [] = pure none
scalar_one_or_none (x ∷ []) = pure (some x)
scalar_one_or_none (x ∷ y ∷ xs) = raise multiple_results
