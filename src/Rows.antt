-- ===== src/Rows.antt =====
-- Rows with a primary key: `session.get`, the update and the deletion of one row, and their laws.
use vista_authen.Prelude.{
  ◌+◌, ◌≡◌, refl, Bool, true, false, ◌||◌, Option, none, some, List, [], ◌∷◌, arith, ◌==◌, ℕ_eq,
  if◌then◌else◌, select, count, All, Bool-cases, inl, inr, subst, sym,
}
use vista_authen.Models.{Uuid, BuildingUnit, Resident, Checker, Admin, AuditLog, ActivationToken}

pub record Keyed (R : Type 0) : Type 0 where
  pub key : R → Uuid

instance abbrev pub unit_keyed : Keyed BuildingUnit
unit_keyed = record { key = λ r. r.id }

instance abbrev pub resident_keyed : Keyed Resident
resident_keyed = record { key = λ r. r.id }

instance abbrev pub checker_keyed : Keyed Checker
checker_keyed = record { key = λ r. r.id }

instance abbrev pub admin_keyed : Keyed Admin
admin_keyed = record { key = λ r. r.id }

instance abbrev pub audit_log_keyed : Keyed AuditLog
audit_log_keyed = record { key = λ r. r.id }

instance abbrev pub token_keyed : Keyed ActivationToken
token_keyed = record { key = λ r. r.id }

module _ {R : Type 0} ⦃k : Keyed R⦄ where
  -- session.get(R, i)
  unfoldable pub get : Uuid → List R → Option R
  get i [] = none
  get i (x ∷ xs) = if k.key x == i then some x else get i xs

  unfoldable pub has : Uuid → List R → Bool
  has i [] = false
  has i (x ∷ xs) = k.key x == i || has i xs

  pub has-cons : (i : Uuid) (x : R) (xs : List R) → has i (x ∷ xs) ≡ (k.key x == i || has i xs)
  unfolding has
  has-cons i x xs = refl

  -- the row of `r`'s key becomes `r`
  unfoldable pub put : R → List R → List R
  put r [] = []
  put r (x ∷ xs) = if k.key x == k.key r then r ∷ xs else x ∷ put r xs

  unfoldable pub without : Uuid → List R → List R
  without i [] = []
  without i (x ∷ xs) = let rest = without i xs in if k.key x == i then rest else x ∷ rest

  pub key-get : (i : Uuid) (xs : List R) {r : R} → get i xs ≡ some r → k.key r ≡ i
  unfolding get
  key-get i [] h = cc
  key-get i (x ∷ xs) {r} h = ground (arith, key-get i xs {r = r})

  pub get-key : (i : Uuid) (xs : List R) {r : R} → get i xs ≡ some r → get (k.key r) xs ≡ some r
  get-key i xs {r} h = subst (λ j. get j xs ≡ some r) (sym (key-get i xs h)) h

  pub has-get : (i : Uuid) (xs : List R) {r : R} → get i xs ≡ some r → has i xs ≡ true
  unfolding get has
  has-get i [] h = cc
  has-get i (x ∷ xs) {r} h = ground (arith, has-get i xs {r = r})

  pub get-has_not : (i : Uuid) (xs : List R) → has i xs ≡ false → get i xs ≡ none
  unfolding get has
  get-has_not i [] h = refl
  get-has_not i (x ∷ xs) h = ground (arith, get-has_not i xs)

  pub get-has : (i : Uuid) (xs : List R) → has i xs ≡ true → (r : R) × (get i xs ≡ some r)
  unfolding get has
  get-has i [] h = absurd (ground arith)
  get-has i (x ∷ xs) h = elim (Bool-cases (k.key x == i)) [
    | inl same ↦ (x, rw same)
    | inr other ↦ rw other (get-has i xs (rw other at h))
  ]

  pub get-put :
      (i : Uuid) (r : R) (xs : List R)
      → get i (put r xs) ≡ (if k.key r == i then (if has i xs then some r else none) else get i xs)
  unfolding get has put
  get-put i r [] = ground arith
  get-put i r (x ∷ xs) = ground (arith, get-put i r xs)

  pub has-put : (i : Uuid) (r : R) (xs : List R) → has i (put r xs) ≡ has i xs
  unfolding has put
  has-put i r [] = refl
  has-put i r (x ∷ xs) = ground (arith, has-put i r xs)

  pub get-without :
      (i j : Uuid) (xs : List R) → get j (without i xs) ≡ (if i == j then none else get j xs)
  unfolding get without
  get-without i j [] = ground arith
  get-without i j (x ∷ xs) = ground (arith, get-without i j xs)

  pub has-without :
      (i j : Uuid) (xs : List R) → has j (without i xs) ≡ (if i == j then false else has j xs)
  unfolding has without
  has-without i j [] = ground arith
  has-without i j (x ∷ xs) = ground (arith, has-without i j xs)

  -- An update moves a count by the row that it replaces.
  pub count-put :
      (p : R → Bool) (r : R) (xs : List R) {old : R}
      → get (k.key r) xs ≡ some old
      → count p (put r xs) + (if p old then 1 else 0) ≡ count p xs + (if p r then 1 else 0)
  unfolding get put
  count-put p r [] h = cc
  count-put p r (x ∷ xs) {old} h = ground (arith, count-put p r xs {old = old})

  pub All-get {κ} :
      (P : R → Type κ) (i : Uuid) (xs : List R) {r : R} → All P xs → get i xs ≡ some r → P r
  unfolding get
  All-get P i [] a h = absurd (cc)
  All-get P i (x ∷ xs) {r} a h = elim (Bool-cases (k.key x == i)) [
    | inl same ↦ let e : x ≡ r = ground arith in subst P e a.0
    | inr other ↦ All-get P i xs a.1 (rw other at h)
  ]

  pub All-put {κ} : (P : R → Type κ) (r : R) (xs : List R) → All P xs → P r → All P (put r xs)
  unfolding put
  All-put P r [] a h = a
  All-put P r (x ∷ xs) a h = elim (Bool-cases (k.key x == k.key r)) [
    | inl same ↦ rw same (h, a.1)
    | inr other ↦ rw other (a.0, All-put P r xs a.1 h)
  ]

  -- No two rows have one key.
  abbrev pub UniqueKeys : List R → Type 0
  UniqueKeys [] = Unit
  UniqueKeys (x ∷ xs) = (has (k.key x) xs ≡ false) × UniqueKeys xs

  pub put-UniqueKeys : (r : R) (xs : List R) → UniqueKeys xs → UniqueKeys (put r xs)
  unfolding put
  put-UniqueKeys r [] u = u
  put-UniqueKeys r (x ∷ xs) u = ground (arith, put-UniqueKeys r xs u.1, has-put (k.key x) r xs)

  pub has-select :
      (i : Uuid) (p : R → Bool) (xs : List R) → has i xs ≡ false → has i (select p xs) ≡ false
  unfolding has
  has-select i p [] h = refl
  has-select i p (x ∷ xs) h = ground (arith, has-select i p xs)

  pub select-UniqueKeys : (p : R → Bool) (xs : List R) → UniqueKeys xs → UniqueKeys (select p xs)
  select-UniqueKeys p [] u = u
  select-UniqueKeys p (x ∷ xs) u = elim (Bool-cases (p x)) [
    | inl kept ↦ rw kept (has-select (k.key x) p xs u.0, select-UniqueKeys p xs u.1)
    | inr dropped ↦ rw dropped (select-UniqueKeys p xs u.1)
  ]

  pub without-UniqueKeys : (i : Uuid) (xs : List R) → UniqueKeys xs → UniqueKeys (without i xs)
  unfolding without
  without-UniqueKeys i [] u = u
  without-UniqueKeys i (x ∷ xs) u = elim (Bool-cases (k.key x == i)) [
    | inl same ↦ rw same (without-UniqueKeys i xs u.1)
    | inr other ↦
        rw other (ground (arith, has-without i (k.key x) xs, u.0), without-UniqueKeys i xs u.1)
  ]
