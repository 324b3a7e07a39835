-- ===== src/Prelude/Lists.antt =====
-- Lists as the rows of a table: search, selection, counting, update and deletion.
use Prim.Native.Nat.{ℕ, zero, suc, ◌+◌, ◌≤◌}
use mathlib.Core.Bool.{Bool, true, false, ◌||◌}
use mathlib.Core.Option.{Option, none, some}
use mathlib.Core.List.{List, [], ◌∷◌}
use mathlib.Core.Path.{◌≡◌, refl, subst}
use mathlib.Core.Logic.{◌⊎◌, inl, inr}
use native.Mathlib.Omega.{arith}
use vista_authen.Prelude.Tests.{if◌then◌else◌, Bool-cases}

module _ {ℓ} {A : Type ℓ} where
  abbrev pub length : List A → ℕ
  length [] = 0
  length (x ∷ xs) = suc (length xs)

  abbrev pub take : ℕ → List A → List A
  take n [] = []
  take zero (x ∷ xs) = []
  take (suc n) (x ∷ xs) = x ∷ take n xs

  abbrev pub drop : ℕ → List A → List A
  drop n [] = []
  drop zero (x ∷ xs) = x ∷ xs
  drop (suc n) (x ∷ xs) = drop n xs

  pub length-take : (n : ℕ) (xs : List A) → length (take n xs) ≤ n
  length-take n [] = omega arith
  length-take zero (x ∷ xs) = omega arith
  length-take (suc n) (x ∷ xs) = omega (arith, length-take n xs)

  -- the first row that passes the test
  abbrev pub find : (A → Bool) → List A → Option A
  find p [] = none
  find p (x ∷ xs) = if p x then some x else find p xs

  -- the rows that pass the test
  abbrev pub select : (A → Bool) → List A → List A
  select p [] = []
  select p (x ∷ xs) = let rest = select p xs in if p x then x ∷ rest else rest

  abbrev pub count : (A → Bool) → List A → ℕ
  count p [] = 0
  count p (x ∷ xs) = (if p x then 1 else 0) + count p xs

  abbrev pub any : (A → Bool) → List A → Bool
  any p [] = false
  any p (x ∷ xs) = p x || any p xs

  abbrev pub All {κ} : (A → Type κ) → List A → Type κ
  All P [] = Unit
  All P (x ∷ xs) = P x × All P xs

  -- A row that is selected passes the test.
  pub select-head :
      (p : A → Bool) (xs : List A) {y : A} {ys : List A} → select p xs ≡ y ∷ ys → p y ≡ true
  select-head p [] h = absurd (cc)
  select-head p (x ∷ xs) {y} {ys} h = elim (Bool-cases (p x)) [
    | inl passes ↦ let e : x ≡ y = ground arith in subst (λ z. p z ≡ true) e passes
    | inr fails ↦ select-head p xs (rw fails at h)
  ]

  pub All-map {κ μ} :
      (P : A → Type κ) (Q : A → Type μ)
      → ((x : A) → P x → Q x)
      → (xs : List A) → All P xs
      → All Q xs
  All-map P Q f [] a = tt
  All-map P Q f (x ∷ xs) a = (f x a.0, All-map P Q f xs a.1)

  pub All-zip {κ μ ν} :
      (P : A → Type κ) (Q : A → Type μ) (R : A → Type ν)
      → ((x : A) → P x → Q x → R x)
      → (xs : List A) → All P xs
      → All Q xs
      → All R xs
  All-zip P Q R f [] a b = tt
  All-zip P Q R f (x ∷ xs) a b = (f x a.0 b.0, All-zip P Q R f xs a.1 b.1)

  pub All-select {κ} :
      (P : A → Type κ) (p : A → Bool) (xs : List A) → All P xs → All P (select p xs)
  All-select P p [] a = tt
  All-select P p (x ∷ xs) a = elim (Bool-cases (p x)) [
    | inl kept ↦ rw kept (a.0, All-select P p xs a.1)
    | inr dropped ↦ rw dropped (All-select P p xs a.1)
  ]

  -- Where no row passes the test.
  pub All-any : (p : A → Bool) (xs : List A) → any p xs ≡ false → All (λ x. p x ≡ false) xs
  All-any p [] h = tt
  All-any p (x ∷ xs) h = (ground arith, All-any p xs (ground arith))

  pub select_of_any : (p : A → Bool) (xs : List A) → any p xs ≡ false → select p xs ≡ []
  select_of_any p [] h = refl
  select_of_any p (x ∷ xs) h = ground (arith, select_of_any p xs)

  pub count_of_All : (p : A → Bool) (xs : List A) → All (λ x. p x ≡ false) xs → count p xs ≡ 0
  count_of_All p [] a = refl
  count_of_All p (x ∷ xs) a = ground (arith, count_of_All p xs a.1)

  pub count_of_find : (p : A → Bool) (xs : List A) → find p xs ≡ none → count p xs ≡ 0
  count_of_find p [] h = refl
  count_of_find p (x ∷ xs) h = ground (arith, count_of_find p xs)

  -- What holds of every row holds of the first that is selected.
  pub All-select-head {κ} :
      (P : A → Type κ) (p : A → Bool) (xs : List A) {y : A} {ys : List A}
      → All P xs
      → select p xs ≡ y ∷ ys
      → P y
  All-select-head P p xs a h = (subst (All P) h (All-select P p xs a)).0

module _ {A : Type 0} where
  -- the row is one of these
  abbrev pub Member : A → List A → Type 0
  Member a [] = ⊥
  Member a (x ∷ xs) = (x ≡ a) ⊎ Member a xs

  pub any_at : (p : A → Bool) (a : A) (xs : List A) → Member a xs → p a ≡ true → any p xs ≡ true
  any_at p a [] here h = elim here [ ]
  any_at p a (x ∷ xs) (inl here) h = let at : p x ≡ true = rw here h in ground arith
  any_at p a (x ∷ xs) (inr later) h = ground (arith, any_at p a xs later h)

  pub any-Member :
      (p : A → Bool) (xs : List A) → any p xs ≡ true → (a : A) × Member a xs × (p a ≡ true)
  any-Member p [] h = absurd (cc)
  any-Member p (x ∷ xs) h = elim (Bool-cases (p x)) [
    | inl here ↦ (x, inl refl, here)
    | inr fails ↦ let (a, later, hit) = any-Member p xs (rw fails at h) in (a, inr later, hit)
  ]
