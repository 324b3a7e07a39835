-- ===== src/Prelude/Sorting.antt =====
-- ORDER BY: a stable insertion sort by a Boolean comparison.
use mathlib.Core.Path.{◌≡◌, refl, ap, ◌∙◌}
use mathlib.Core.Bool.{Bool, true, false}
use mathlib.Core.List.{List, [], ◌∷◌}
use native.Mathlib.Omega.{arith}
use mathlib.Core.Logic.{inl, inr}
use vista_authen.Prelude.Tests.{if◌then◌else◌, Bool-cases}
use vista_authen.Prelude.Lists.{count, length, All, All-map}

module _ {ℓ} {A : Type ℓ} (le : A → A → Bool) where
  unfoldable pub insert_by : A → List A → List A
  insert_by x [] = x ∷ []
  insert_by x (y ∷ ys) = if le x y then x ∷ y ∷ ys else y ∷ insert_by x ys

  unfoldable pub sort_by : List A → List A
  unfolding insert_by
  sort_by [] = []
  sort_by (x ∷ xs) = insert_by x (sort_by xs)

  count-insert_by :
      (p : A → Bool) (x : A) (ys : List A) → count p (insert_by x ys) ≡ count p (x ∷ ys)
  unfolding insert_by
  count-insert_by p x [] = refl
  count-insert_by p x (y ∷ ys) = ground (arith, count-insert_by p x ys)

  -- Sorting keeps the number of rows of each kind.
  pub count-sort_by : (p : A → Bool) (xs : List A) → count p (sort_by xs) ≡ count p xs
  unfolding sort_by
  count-sort_by p [] = refl
  count-sort_by p (x ∷ xs) = ground (arith, count-insert_by p x (sort_by xs), count-sort_by p xs)

  -- every row comes before the ones after it
  abbrev pub IsSorted : List A → Type 0
  IsSorted [] = Unit
  IsSorted (x ∷ xs) = All (λ y. le x y ≡ true) xs × IsSorted xs

  length-insert_by : (x : A) (ys : List A) → length (insert_by x ys) ≡ length (x ∷ ys)
  unfolding insert_by
  length-insert_by x [] = refl
  length-insert_by x (y ∷ ys) = ground (arith, length-insert_by x ys)

  pub length-sort_by : (xs : List A) → length (sort_by xs) ≡ length xs
  unfolding sort_by
  length-sort_by [] = refl
  length-sort_by (x ∷ xs) = ground (arith, length-insert_by x (sort_by xs), length-sort_by xs)

  insert_by-All :
      (z x : A) (ys : List A)
      → le z x ≡ true
      → All (λ y. le z y ≡ true) ys
      → All (λ y. le z y ≡ true) (insert_by x ys)
  unfolding insert_by
  insert_by-All z x [] h a = (h, tt)
  insert_by-All z x (y ∷ ys) h a = elim (Bool-cases (le x y)) [
    | inl before ↦ rw before (h, a)
    | inr after ↦ rw after (a.0, insert_by-All z x ys h a.1)
  ]

  module _ (le_total : (a b : A) → le a b ≡ false → le b a ≡ true)
      (le_trans : (a b c : A) → le a b ≡ true → le b c ≡ true → le a c ≡ true) where
    insert_by-IsSorted : (x : A) (ys : List A) → IsSorted ys → IsSorted (insert_by x ys)
    unfolding insert_by
    insert_by-IsSorted x [] s = (tt, tt)
    insert_by-IsSorted x (y ∷ ys) s = elim (Bool-cases (le x y)) [
      | inl before ↦ rw before (
        (
          before,
          All-map (λ z. le y z ≡ true) (λ z. le x z ≡ true) (λ z. le_trans x y z before) ys s.0,
        ),
        s,
      )
      | inr after ↦
          rw after (insert_by-All y x ys (le_total x y after) s.0, insert_by-IsSorted x ys s.1)
    ]

    pub sort_by-IsSorted : (xs : List A) → IsSorted (sort_by xs)
    unfolding sort_by
    sort_by-IsSorted [] = tt
    sort_by-IsSorted (x ∷ xs) = insert_by-IsSorted x (sort_by xs) (sort_by-IsSorted xs)

  pub insert_by-keeps {κ} :
      (P : A → Type κ) (x : A) (ys : List A) → P x → All P ys → All P (insert_by x ys)
  unfolding insert_by
  insert_by-keeps P x [] h a = (h, tt)
  insert_by-keeps P x (y ∷ ys) h a = elim (Bool-cases (le x y)) [
    | inl before ↦ rw before (h, a)
    | inr after ↦ rw after (a.0, insert_by-keeps P x ys h a.1)
  ]

  pub sort_by-keeps {κ} : (P : A → Type κ) (xs : List A) → All P xs → All P (sort_by xs)
  unfolding sort_by
  sort_by-keeps P [] a = tt
  sort_by-keeps P (x ∷ xs) a = insert_by-keeps P x (sort_by xs) a.0 (sort_by-keeps P xs a.1)

-- two comparisons
module _ {ℓ} {A : Type ℓ} (le le2 : A → A → Bool) where
  pub IsSorted-map :
      ((a b : A) → le a b ≡ true → le2 a b ≡ true)
      → (xs : List A) → IsSorted le xs
      → IsSorted le2 xs
  IsSorted-map f [] s = tt
  IsSorted-map f (x ∷ xs) s = (All-map _ _ (f x) xs s.0, IsSorted-map f xs s.1)

  -- they say the same of each row and the ones after it
  abbrev pub Agree : List A → Type ℓ
  Agree [] = Unit
  Agree (x ∷ xs) = All (λ y. le x y ≡ le2 x y) xs × Agree xs

  insert_by_agree :
      (x : A) (ys : List A)
      → All (λ y. le x y ≡ le2 x y) ys
      → insert_by le x ys ≡ insert_by le2 x ys
  unfolding insert_by
  insert_by_agree x [] a = refl
  insert_by_agree x (y ∷ ys) a = let ih = insert_by_agree x ys a.1 in rw (a.0, ih) refl

  pub sort_by-Agree : (xs : List A) → Agree xs → sort_by le xs ≡ sort_by le2 xs
  unfolding sort_by
  sort_by-Agree [] a = refl
  sort_by-Agree (x ∷ xs) a =
      ap (insert_by le x) (sort_by-Agree xs a.1)
      ∙ insert_by_agree x (sort_by le2 xs) (sort_by-keeps le2 _ xs a.0)
