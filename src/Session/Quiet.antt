-- ===== src/Session/Quiet.antt =====
-- Blocks that commit nothing and only add to the audit log: a rule for each way to build one, for
-- `search`.
use vista_authen.Prelude.{
  ◌≡◌, refl, ◌∙◌, Bool, true, false, if◌then◌else◌, List, [], ◌∷◌, ◌++◌, ap, sym, append_assoc,
}
use vista_authen.Models.{Db, AuditLog}
use vista_authen.Session.{World, continue, Result, ok, raised, M, modify, ◌>>=◌}
use vista_authen.Session.Reads.{Reads, read_rules}

-- the audit log holds what it held, behind newer entries
abbrev pub Extends : List AuditLog → List AuditLog → Type 0
Extends old new = (added : List AuditLog) × (new ≡ added ++ old)

pub Extends-trans : {a b c : List AuditLog} → Extends a b → Extends b c → Extends a c
Extends-trans {a} {b} {c} (xs, p) (ys, q) =
    (ys ++ xs, q ∙ ap (λ l. ys ++ l) p ∙ sym (append_assoc ys xs a))

pub record Quiet {A : Type 0} (m : M A) : Type 0 where
  pub at : (w : World) → (m w).1.committed ≡ w.committed
  pub logs : (w : World) → Extends w.db.audit_logs (m w).1.db.audit_logs

pub Reads-Quiet : {A : Type 0} {m : M A} → Reads m → Quiet m
Reads-Quiet r = record { at = r.stored; logs = λ w. ([], ap (λ d. d.audit_logs) (r.session w)) }

pub if-Quiet : {A : Type 0} (b : Bool) {m n : M A} → Quiet m → Quiet n → Quiet (if b then m else n)
if-Quiet true p q = p
if-Quiet false p q = q

pub modify-Quiet :
    (f : Db → Db) → ((d : Db) → Extends d.audit_logs (f d).audit_logs) → Quiet (modify f)
unfolding modify
modify-Quiet f h = record { at = λ w. refl; logs = λ w. h w.db }

-- a change of the other tables
pub unlogged : (f : Db → Db) → ((d : Db) → (f d).audit_logs ≡ d.audit_logs) → Quiet (modify f)
unlogged f h = modify-Quiet f (λ d. ([], h d))

module _ {A B : Type 0} (v : World) (f : A → M B) (quiet : (a : A) → Quiet (f a)) where
  continue-at : (r : Result A) → (continue (r, v) f).1.committed ≡ v.committed
  continue-at (ok a) = (quiet a).at v
  continue-at (raised e) = refl

  continue-logs : (r : Result A) → Extends v.db.audit_logs (continue (r, v) f).1.db.audit_logs
  continue-logs (ok a) = (quiet a).logs v
  continue-logs (raised e) = ([], refl)

pub bind-Quiet :
    {A B : Type 0} {m : M A} {f : A → M B} → Quiet m → ((a : A) → Quiet (f a)) → Quiet (m >>= f)
unfolding ◌>>=◌
bind-Quiet {m} {f} p q = record {
  at = λ w. continue-at (m w).1 f q (m w).0 ∙ p.at w;
  logs = λ w. Extends-trans (p.logs w) (continue-logs (m w).1 f q (m w).0);
}

pub ruleset quiet_rules = (bind-Quiet, if-Quiet, read_rules, Reads-Quiet, unlogged, refl)
