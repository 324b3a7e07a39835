-- ===== src/Upkeep/Pages.antt =====
-- The pages of the audit log.
use vista_authen.Prelude.{
  ℕ, zero, suc, ◌+◌, ◌-◌, ◌*◌, ◌≤◌, ◌≡◌, refl, String, Bool, true, Option, List, [], ◌∷◌, ◌++◌,
  arith, count, select, length, take, drop, length-take, ap, sym, ◌∙◌, leb, false, ◌==◌, ℕ_eq, All,
  All-map, All-any,
}
use vista_authen.Prelude.Sorting.{
  sort_by, sort_by-IsSorted, IsSorted, count-sort_by, length-sort_by, IsSorted-map, sort_by-keeps,
  Agree, sort_by-Agree,
}
use vista_authen.Models.{Uuid, Db, AuditLog, micros}
use vista_authen.Session.{World, Result, ok, raised, ◌>>=◌}
use vista_authen.Lifecycle.Distinct.{Distinct}
use vista_authen.Upkeep.Filters.{Passes, selected-Passes, count-selected}
use vista_authen.Services.Audit.{matches, newer, list_logs}

suc_add : (n m : ℕ) → suc (n + m) ≡ suc n + m
suc_add n m = omega arith

module _ {A : Type 0} where
  length_of_select : (p : A → Bool) (xs : List A) → length (select p xs) ≡ count p xs
  length_of_select p [] = refl
  length_of_select p (x ∷ xs) = ground (arith, length_of_select p xs)

  -- The first `n` rows and the `m` after them are the first `n + m`.
  take_then : (n m : ℕ) (xs : List A) → take n xs ++ take m (drop n xs) ≡ take (n + m) xs
  take_then n m [] = refl
  take_then zero m (x ∷ xs) = ap (λ k. take k (x ∷ xs)) (omega arith)
  take_then (suc n) m (x ∷ xs) =
      ap (λ ys. x ∷ ys) (take_then n m xs) ∙ ap (λ k. take k (x ∷ xs)) (suc_add n m)

  pub take_all : (n : ℕ) (xs : List A) → length xs ≤ n → take n xs ≡ xs
  take_all n [] h = refl
  take_all zero (x ∷ xs) h = absurd (omega arith)
  take_all (suc n) (x ∷ xs) h = ap (λ ys. x ∷ ys) (take_all n xs (omega arith))

-- newest first
abbrev pub by_time : AuditLog → AuditLog → Bool
by_time a b = leb (micros b.timestamp) (micros a.timestamp)

-- the entries that pass the filters, newest first
abbrev pub history : Db → Option String → Option Uuid → Option String → List AuditLog
history d action unit_id actor_role =
    sort_by by_time (select (matches action unit_id actor_role) d.audit_logs)

-- The entries that pass the filters, each as often as it is in the table, newest first.
pub record IsHistory (d : Db) (action : Option String) (unit_id : Option Uuid)
    (actor_role : Option String) (all : List AuditLog) : Type 0 where
  pub sorted : IsSorted by_time all
  pub passing : All (Passes action unit_id actor_role) all
  pub complete :
      (q : AuditLog → Bool)
      → ((l : AuditLog) → q l ≡ true → Passes action unit_id actor_role l)
      → count q all ≡ count q d.audit_logs

-- What a page `rows` is of the entries that pass the filters: a stretch of some list of them that is
-- newest first, and of the one such list where no two of them have the same timestamp.
pub record IsPage (d : Db) (action : Option String) (unit_id : Option Uuid)
    (actor_role : Option String) (page page_size : ℕ) (rows : List AuditLog) (total : ℕ)
    : Type 0 where
  pub all : List AuditLog
  pub shown : IsHistory d action unit_id actor_role all
  pub counted : total ≡ length all
  -- the page follows the ones before it, and is full unless it is the last
  pub follows :
      take ((page - 1) * page_size) all ++ rows ≡ take ((page - 1) * page_size + page_size) all
  pub fits : length rows ≤ page_size
  -- and there is no other choice of `all` where the timestamps differ
  pub determined :
      Distinct (λ l. micros l.timestamp) (select (matches action unit_id actor_role) d.audit_logs)
      → all ≡ history d action unit_id actor_role

abbrev pub Pages :
    Option String
    → Option Uuid
    → Option String
    → ℕ
    → ℕ
    → World
    → Result (List AuditLog × ℕ)
    → World
    → Type 0
Pages a u r page size w (ok (rows, total)) v =
    IsPage w.db a u r page size rows total × (v.db ≡ w.db) × (v.committed ≡ w.committed)
Pages a u r page size w (raised e) v = ⊥

by_time_total : (a b : AuditLog) → by_time a b ≡ false → by_time b a ≡ true
by_time_total a b h = ground arith

by_time_trans : (a b c : AuditLog) → by_time a b ≡ true → by_time b c ≡ true → by_time a c ≡ true
by_time_trans a b c h k = ground arith

-- The list in the order of the table is such a list.
pub history-IsHistory :
    (d : Db) (a : Option String) (u : Option Uuid) (r : Option String)
    → IsHistory d a u r (history d a u r)
history-IsHistory d a u r =
    let rows : List AuditLog = select (matches a u r) d.audit_logs in
    record {
      sorted = sort_by-IsSorted by_time by_time_total by_time_trans rows;
      passing = sort_by-keeps by_time (Passes a u r) rows (selected-Passes a u r d.audit_logs);
      complete =
          λ q wanted. count-sort_by by_time q rows ∙ count-selected a u r q wanted d.audit_logs;
    }

newer_total :
    (rank : AuditLog → ℕ) (a b : AuditLog) → newer rank a b ≡ false → newer rank b a ≡ true
newer_total rank a b h = ground arith

newer_trans :
    (rank : AuditLog → ℕ) (a b c : AuditLog)
    → newer rank a b ≡ true
    → newer rank b c ≡ true
    → newer rank a c ≡ true
newer_trans rank a b c h k = ground arith

newer-by_time : (rank : AuditLog → ℕ) (a b : AuditLog) → newer rank a b ≡ true → by_time a b ≡ true
newer-by_time rank a b h = ground arith

agree_apart :
    (rank : AuditLog → ℕ) (a b : AuditLog)
    → (micros b.timestamp == micros a.timestamp) ≡ false
    → newer rank a b ≡ by_time a b
agree_apart rank a b h = ground arith

-- Where the timestamps differ there are no ties.
Distinct-Agree :
    (rank : AuditLog → ℕ) (xs : List AuditLog)
    → Distinct (λ l. micros l.timestamp) xs
    → Agree (newer rank) by_time xs
Distinct-Agree rank [] u = tt
Distinct-Agree rank (x ∷ xs) u =
    (All-map _ _ (agree_apart rank x) xs (All-any _ xs u.0), Distinct-Agree rank xs u.1)

-- A list of the audit log always returns and changes no table. However the database orders the
-- entries with one timestamp, the page is its stretch of a list, newest first, of exactly the entries
-- that pass the filters, and the total is their number; where no two of these entries have one
-- timestamp, that list is the same for every call, so that the pages are parts of one list.
pub list_logs-Pages :
    (a : Option String) (u : Option Uuid) (r : Option String) (page size : ℕ) (w : World)
    → Pages a u r page size w (list_logs a u r page size w).0 (list_logs a u r page size w).1
unfolding list_logs ◌>>=◌
list_logs-Pages a u r page size w =
    let rows : List AuditLog = select (matches a u r) w.db.audit_logs in
    let rank : AuditLog → ℕ = w.ties 0 in
    let all : List AuditLog = sort_by (newer rank) rows in
    (
      record {
        all = all;
        shown = record {
          sorted =
              IsSorted-map (newer rank) by_time (newer-by_time rank) all
                (sort_by-IsSorted (newer rank) (newer_total rank) (newer_trans rank) rows);
          passing =
              sort_by-keeps (newer rank) (Passes a u r) rows
                (selected-Passes a u r w.db.audit_logs);
          complete = λ q wanted.
              count-sort_by (newer rank) q rows ∙ count-selected a u r q wanted w.db.audit_logs;
        };
        counted = sym (length-sort_by (newer rank) rows);
        follows = take_then ((page - 1) * size) size all;
        fits = length-take size (drop ((page - 1) * size) all);
        determined =
            λ apart. sort_by-Agree (newer rank) by_time rows (Distinct-Agree rank rows apart);
      },
      refl,
      refl,
    )
