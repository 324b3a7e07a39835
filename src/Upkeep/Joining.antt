-- ===== src/Upkeep/Joining.antt =====
-- app/services/audit_service.py, list_logs: the pages of several calls, put together.
use vista_authen.Prelude.{
  ℕ, zero, suc, ◌+◌, ◌-◌, ◌*◌, ◌≤◌, ◌≡◌, refl, String, Option, List, [], ◌∷◌, ◌++◌, arith, ap, ◌∙◌,
  select, length, take, ℕ_eq,
}
use vista_authen.Models.{Uuid, Db, AuditLog, micros}
use vista_authen.Session.{World, Result, ok, raised}
use vista_authen.Lifecycle.Distinct.{Distinct}
use vista_authen.Services.Audit.{matches, list_logs}
use vista_authen.Upkeep.Pages.{
  IsPage, Pages, IsHistory, history, history-IsHistory, take_all, list_logs-Pages,
}

take_none : (xs : List AuditLog) → take 0 xs ≡ []
take_none [] = refl
take_none (x ∷ xs) = refl

abbrev rows_of : Result (List AuditLog × ℕ) → List AuditLog
rows_of (ok (rows, total)) = rows
rows_of (raised e) = []

module _ (a : Option String) (u : Option Uuid) (r : Option String) (size : ℕ) where
  -- the first pages, each asked for in a world of its own
  abbrev pub joined : (ℕ → World) → ℕ → List AuditLog
  joined ws zero = []
  joined ws (suc n) = joined ws n ++ rows_of (list_logs a u r (suc n) size (ws n)).0

  module _ (d : Db)
      (apart : Distinct (λ l. micros l.timestamp) (select (matches a u r) d.audit_logs)) where
    next_page :
        (n : ℕ) (w : World) (res : Result (List AuditLog × ℕ)) (v : World)
        → w.db ≡ d
        → Pages a u r (suc n) size w res v
        → take (n * size) (history d a u r) ++ rows_of res ≡ take (suc n * size) (history d a u r)
    next_page n w (ok (rows, total)) v same (page, session, stored) =
        let shown : IsPage d a u r (suc n) size rows total = rw same at page in
        let one : shown.all ≡ history d a u r = shown.determined apart in
        let start : (suc n - 1) * size ≡ n * size = ap (λ k. k * size) (omega arith) in
        let stop : n * size + size ≡ suc n * size = omega arith in
        rw (start, one, stop) at shown.follows
    next_page n w (raised e) v same failed = elim failed [ ]

    joined-take :
        (ws : ℕ → World) (n : ℕ)
        → ((k : ℕ) → (ws k).db ≡ d)
        → joined ws n ≡ take (n * size) (history d a u r)
    joined-take ws zero same =
        let none : 0 * size ≡ 0 = omega arith in rw (none, take_none (history d a u r)) refl
    joined-take ws (suc n) same =
        ap (λ rows. rows ++ rows_of (list_logs a u r (suc n) size (ws n)).0) (joined-take ws n same)
        ∙ next_page n (ws n) _ _ (same n) (list_logs-Pages a u r (suc n) size (ws n))

  -- Where no two of the entries that pass the filters have one timestamp, the pages of one size,
  -- each asked for on its own while the tables stay as they are, and put one after another, are these
  -- entries, newest first, each as often as the table has it, as soon as there are enough pages.
  pub list_logs-joined :
      (d : Db) (ws : ℕ → World) (n : ℕ)
      → Distinct (λ l. micros l.timestamp) (select (matches a u r) d.audit_logs)
      → ((k : ℕ) → (ws k).db ≡ d)
      → length (history d a u r) ≤ n * size
      → IsHistory d a u r (joined ws n)
  list_logs-joined d ws n apart same enough =
      let whole : joined ws n ≡ history d a u r =
        joined-take d apart ws n same ∙ take_all (n * size) (history d a u r) enough in
      rw whole (history-IsHistory d a u r)
