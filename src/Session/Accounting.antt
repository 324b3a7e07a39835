-- ===== src/Session/Accounting.antt =====
-- Blocks that change no resident unless they add to the audit log: a rule for each way to build one,
-- for `search`.
use vista_authen.Prelude.{
  ◌≤◌, ◌<◌, ◌≡◌, ◌⊎◌, inl, inr, refl, ◌∙◌, ap, subst, sym, Bool, true, false, if◌then◌else◌, List,
  [], ◌∷◌, ◌++◌, length, arith,
}
use vista_authen.Models.{Db, AuditLog}
use vista_authen.Session.{World, continue, Exn, Result, ok, raised, M, modify, raise, ◌>>=◌}
use vista_authen.Session.Reads.{Reads}
use vista_authen.Session.Quiet.{
  Quiet, Extends, Reads-Quiet, bind-Quiet, if-Quiet, unlogged, quiet_rules,
}

-- the audit log has more entries
abbrev pub Grows : List AuditLog → List AuditLog → Type 0
Grows old new = length old < length new

length-append : {A : Type 0} (xs ys : List A) → length ys ≤ length (xs ++ ys)
length-append [] ys = omega arith
length-append (x ∷ xs) ys = omega (arith, length-append xs ys)

pub Extends-length : {old new : List AuditLog} → Extends old new → length old ≤ length new
Extends-length {old} {new} (added, e) =
    subst (λ (l : List AuditLog). length old ≤ length l) (sym e) (length-append added old)

-- A quiet block that logs where it returns.
pub record Logs {A : Type 0} (m : M A) : Type 0 where
  pub quiet : Quiet m
  pub logs : (w : World) (a : A) → (m w).0 ≡ ok a → Grows w.db.audit_logs (m w).1.db.audit_logs

-- A quiet block that logs where it returns and has changed a resident.
abbrev pub Unsilent : World → World → Type 0
Unsilent w v = (v.db.residents ≡ w.db.residents) ⊎ Grows w.db.audit_logs v.db.audit_logs

pub record Accounts {A : Type 0} (m : M A) : Type 0 where
  pub quiet : Quiet m
  pub at : (w : World) (a : A) → (m w).0 ≡ ok a → Unsilent w (m w).1

pub Logs-Accounts : {A : Type 0} {m : M A} → Logs m → Accounts m
Logs-Accounts h = record { quiet = h.quiet; at = λ w a e. inr (h.logs w a e) }

pub Reads-Accounts : {A : Type 0} {m : M A} → Reads m → Accounts m
Reads-Accounts r = record {
  quiet = Reads-Quiet r;
  at = λ w a e. inl (ap (λ d. d.residents) (r.session w));
}

pub raise-Logs : {A : Type 0} (e : Exn) → Logs (raise {A = A} e)
unfolding raise
raise-Logs e = record { quiet = search quiet_rules; logs = λ w a h. absurd (cc) }

pub if-Accounts :
    {A : Type 0} (b : Bool) {m n : M A} → Accounts m → Accounts n → Accounts (if b then m else n)
if-Accounts true p q = p
if-Accounts false p q = q

pub if-Logs : {A : Type 0} (b : Bool) {m n : M A} → Logs m → Logs n → Logs (if b then m else n)
if-Logs true p q = p
if-Logs false p q = q

-- a change of another table
pub elsewhere :
    (f : Db → Db)
    → ((d : Db) → (f d).audit_logs ≡ d.audit_logs)
    → ((d : Db) → (f d).residents ≡ d.residents)
    → Accounts (modify f)
unfolding modify
elsewhere f h k = record { quiet = unlogged f h; at = λ w a e. inl (k w.db) }

module _ {A B : Type 0} (v : World) (f : A → M B) where
  continue-Grows :
      (old : List AuditLog) (r : Result A) (b : B)
      → ((a : A) → r ≡ ok a → Grows old v.db.audit_logs)
      → ((a : A) → Quiet (f a))
      → (continue (r, v) f).0 ≡ ok b
      → Grows old (continue (r, v) f).1.db.audit_logs
  continue-Grows old (ok a) b h q e = omega (arith, h a refl, Extends-length ((q a).logs v))
  continue-Grows old (raised x) b h q e = absurd (cc)

  continue-Logs :
      (old : List AuditLog) (r : Result A) (b : B)
      → Extends old v.db.audit_logs
      → ((a : A) → Logs (f a))
      → (continue (r, v) f).0 ≡ ok b
      → Grows old (continue (r, v) f).1.db.audit_logs
  continue-Logs old (ok a) b h q e = omega (arith, Extends-length h, (q a).logs v b e)
  continue-Logs old (raised x) b h q e = absurd (cc)

  continue-Unsilent :
      (w : World) (r : Result A) (b : B)
      → ((a : A) → r ≡ ok a → Unsilent w v)
      → Extends w.db.audit_logs v.db.audit_logs
      → ((a : A) → Accounts (f a))
      → (continue (r, v) f).0 ≡ ok b
      → Unsilent w (continue (r, v) f).1
  continue-Unsilent w (raised x) b h k q e = absurd (cc)
  continue-Unsilent w (ok a) b h k q e = elim (h a refl) [
    | inr grown ↦ inr (omega (arith, grown, Extends-length ((q a).quiet.logs v)))
    | inl same ↦ elim ((q a).at v b e) [
      | inl kept ↦ inl (kept ∙ same)
      | inr grown ↦ inr (omega (arith, grown, Extends-length k))
    ]
  ]

module _ {A B : Type 0} {m : M A} {f : A → M B} where
  pub first-Logs : Logs m → ((a : A) → Quiet (f a)) → Logs (m >>= f)
  unfolding ◌>>=◌
  first-Logs p q = record {
    quiet = bind-Quiet p.quiet q;
    logs = λ w b e. continue-Grows (m w).1 f w.db.audit_logs (m w).0 b (p.logs w) q e;
  }

  pub last-Logs : Quiet m → ((a : A) → Logs (f a)) → Logs (m >>= f)
  unfolding ◌>>=◌
  last-Logs p q = record {
    quiet = bind-Quiet p (λ a. (q a).quiet);
    logs = λ w b e. continue-Logs (m w).1 f w.db.audit_logs (m w).0 b (p.logs w) q e;
  }

  pub bind-Accounts : Accounts m → ((a : A) → Accounts (f a)) → Accounts (m >>= f)
  unfolding ◌>>=◌
  bind-Accounts p q = record {
    quiet = bind-Quiet p.quiet (λ a. (q a).quiet);
    at = λ w b e. continue-Unsilent (m w).1 f w (m w).0 b (p.at w) (p.quiet.logs w) q e;
  }

pub ruleset logging_rules = (raise-Logs, if-Logs, last-Logs, first-Logs, quiet_rules)

pub ruleset accounting_rules = (
  bind-Accounts, if-Accounts, quiet_rules, Reads-Accounts, elsewhere, logging_rules, Logs-Accounts,
)
