-- ===== src/Lifecycle/Uniqueness.antt =====
-- The unique columns stay unique whatever is served.
use vista_authen.Prelude.{refl, String, String_eq, ℕ_eq, List, arith}
use vista_authen.Models.{
  Uuid, Db, BuildingUnit, Resident, Checker, Admin, AuditLog, ActivationToken,
}
use vista_authen.Session.{World}
use vista_authen.Externals.{Externals}
use vista_authen.Config.{Settings}
use vista_authen.Rows.{unit_keyed, checker_keyed, token_keyed}
use vista_authen.Tables.{unit_taken, checker_taken, admin_taken, token_refused}
use vista_authen.Services.Residents.{consumed}
use vista_authen.Routes.Requests.{Event, serve}
use vista_authen.Lifecycle.{Step, Reach, here, next}
use vista_authen.Lifecycle.Invariant.{IsSound}
use vista_authen.Lifecycle.Soundness.{Reach-IsSound}
use vista_authen.Lifecycle.Serving.{serve-Reach}
use vista_authen.Lifecycle.Distinct.{
  Distinct, select-Distinct, without-Distinct, put-Distinct, get-select,
}

pub record IsDistinct (d : Db) : Type 0 where
  pub unit_numbers : Distinct (λ u. u.unit_number) d.units
  pub checker_names : Distinct (λ c. c.username) d.checkers
  pub admin_names : Distinct (λ a. a.username) d.admins
  pub token_texts : Distinct (λ t. t.token) d.activation_tokens
  -- `ActivationToken.resident_id`: no resident has two tokens
  pub token_holders : Distinct (λ t. t.resident_id) d.activation_tokens

module _ {d : Db} (u : IsDistinct d) where
  pub rest-IsDistinct :
      (residents : List Resident) (logs : List AuditLog)
      → IsDistinct (record d { residents = residents; audit_logs = logs })
  rest-IsDistinct residents logs = record {
    unit_numbers = u.unit_numbers;
    checker_names = u.checker_names;
    admin_names = u.admin_names;
    token_texts = u.token_texts;
    token_holders = u.token_holders;
  }

  pub units-IsDistinct :
      (xs : List BuildingUnit)
      → Distinct (λ x. x.unit_number) xs
      → IsDistinct (record d { units = xs })
  units-IsDistinct xs h = record {
    unit_numbers = h;
    checker_names = u.checker_names;
    admin_names = u.admin_names;
    token_texts = u.token_texts;
    token_holders = u.token_holders;
  }

  pub checkers-IsDistinct :
      (xs : List Checker) → Distinct (λ x. x.username) xs → IsDistinct (record d { checkers = xs })
  checkers-IsDistinct xs h = record {
    unit_numbers = u.unit_numbers;
    checker_names = h;
    admin_names = u.admin_names;
    token_texts = u.token_texts;
    token_holders = u.token_holders;
  }

  pub admins-IsDistinct :
      (xs : List Admin) → Distinct (λ x. x.username) xs → IsDistinct (record d { admins = xs })
  admins-IsDistinct xs h = record {
    unit_numbers = u.unit_numbers;
    checker_names = u.checker_names;
    admin_names = h;
    token_texts = u.token_texts;
    token_holders = u.token_holders;
  }

  pub tokens-IsDistinct :
      (xs : List ActivationToken)
      → Distinct (λ x. x.token) xs
      → Distinct (λ x. x.resident_id) xs
      → IsDistinct (record d { activation_tokens = xs })
  tokens-IsDistinct xs h k = record {
    unit_numbers = u.unit_numbers;
    checker_names = u.checker_names;
    admin_names = u.admin_names;
    token_texts = h;
    token_holders = k;
  }

-- A row that the database accepts brings new values, and a change of a row keeps the old ones.
Step-IsDistinct : {d e : Db} → Step d e → IsSound d → IsDistinct d → IsDistinct e
unfolding unit_taken checker_taken admin_taken token_refused
Step-IsDistinct (Step.log_added l h) s u = rest-IsDistinct u _ _
Step-IsDistinct (Step.logs_purged keep) s u = rest-IsDistinct u _ _
Step-IsDistinct (Step.unit_added r h) s u = units-IsDistinct u _ (ground arith, u.unit_numbers)
Step-IsDistinct {d} (Step.unit_changed old r f n h) s u =
    units-IsDistinct u _
      (put-Distinct {B = String} (λ x. x.unit_number) r old d.units f n u.unit_numbers)
Step-IsDistinct {d} (Step.unit_deleted i h) s u =
    units-IsDistinct u _ (
      without-Distinct {R = BuildingUnit} {B = String} (λ x. x.unit_number) i d.units
        u.unit_numbers)
Step-IsDistinct (Step.resident_added r h) s u = rest-IsDistinct u _ _
Step-IsDistinct (Step.resident_changed old r f t) s u = rest-IsDistinct u _ _
Step-IsDistinct (Step.token_added t h n) s u =
    tokens-IsDistinct u _ (ground arith, u.token_texts) (ground arith, u.token_holders)
Step-IsDistinct {d} (Step.token_used t now h n) s u =
    let ts = d.activation_tokens in
    let found = get-select _ ts s.token_ids h in
    tokens-IsDistinct u _
      (put-Distinct {B = String} (λ x. x.token) (consumed now t) t ts found refl u.token_texts)
      (put-Distinct {B = Uuid} (λ x. x.resident_id) (consumed now t) t ts found refl
        u.token_holders)
Step-IsDistinct {d} (Step.tokens_purged keep) s u =
    tokens-IsDistinct u _
      (select-Distinct {B = String} (λ x. x.token) keep d.activation_tokens u.token_texts)
      (select-Distinct {B = Uuid} (λ x. x.resident_id) keep d.activation_tokens u.token_holders)
Step-IsDistinct (Step.checker_added c h) s u =
    checkers-IsDistinct u _ (ground arith, u.checker_names)
Step-IsDistinct {d} (Step.checker_changed old c f n) s u =
    checkers-IsDistinct u _
      (put-Distinct {B = String} (λ x. x.username) c old d.checkers f n u.checker_names)
Step-IsDistinct (Step.admin_added a h) s u = admins-IsDistinct u _ (ground arith, u.admin_names)

Reach-IsDistinct : {d e : Db} → Reach d e → IsSound d → IsDistinct d → IsDistinct e
Reach-IsDistinct here s u = u
Reach-IsDistinct (next r st) s u = Step-IsDistinct st (Reach-IsSound r s) (Reach-IsDistinct r s u)

-- From sound tables in which unit numbers, the names of checkers and of admins, the texts of tokens
-- and the residents that tokens are for are each unique, they are unique in the committed tables
-- after any sequence of requests and rounds of the periodic task.
pub serve-IsDistinct :
    (x : Externals) (cfg : Settings) (es : List Event) (w : World)
    → IsSound w.committed
    → IsDistinct w.committed
    → IsDistinct (serve x cfg es w).committed
serve-IsDistinct x cfg es w s u = Reach-IsDistinct (serve-Reach x cfg es w) s u
