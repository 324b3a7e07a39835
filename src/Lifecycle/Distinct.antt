-- ===== src/Lifecycle/Distinct.antt =====
-- The `unique=True` columns of app/models/models.py: no two rows of a table have one value there,
-- and how each change of a table keeps it so.
use vista_authen.Prelude.{
  ◌≡◌, refl, Bool, false, some, List, [], ◌∷◌, arith, ◌==◌, Equality, String_eq, ℕ_eq, select, any,
  All, All-select-head, Bool-cases, inl, inr, ap, ◌∙◌, All-map, subst, sym,
}
use vista_authen.Models.{Uuid}
use vista_authen.Rows.{Keyed, get, put, without, UniqueKeys, has-get}

module _ {R : Type 0} where
  any-select : (p keep : R → Bool) (xs : List R) → any p xs ≡ false → any p (select keep xs) ≡ false
  any-select p keep [] h = refl
  any-select p keep (x ∷ xs) h = ground (arith, any-select p keep xs)

  module _ ⦃k : Keyed R⦄ where
    any-put :
        (p : R → Bool) (r : R) (xs : List R) {old : R}
        → get (k.key r) xs ≡ some old
        → p r ≡ p old
        → any p (put r xs) ≡ any p xs
    unfolding get put
    any-put p r [] h e = refl
    any-put p r (x ∷ xs) {old} h e = ground (arith, any-put p r xs {old = old})

    any-without :
        (p : R → Bool) (i : Uuid) (xs : List R) → any p xs ≡ false → any p (without i xs) ≡ false
    unfolding without
    any-without p i [] h = refl
    any-without p i (x ∷ xs) h = ground (arith, any-without p i xs)

    -- Each row is the one that its key finds.
    own : (xs : List R) → UniqueKeys xs → All (λ x. get (k.key x) xs ≡ some x) xs
    unfolding get
    own [] u = tt
    own (x ∷ xs) u = (
      ground (arith, (ℕ_eq.decides (k.key x) (k.key x)).1),
      All-map _ _
          (λ y h. ground (arith, has-get (k.key y) xs h, (ℕ_eq.decides (k.key x) (k.key y)).0)) xs
          (own xs u.1),
    )

    -- A row that is selected is the one of its key.
    pub get-select :
        (p : R → Bool) (xs : List R) {r : R} {rs : List R}
        → UniqueKeys xs
        → select p xs ≡ r ∷ rs
        → get (k.key r) xs ≡ some r
    get-select p xs u h = All-select-head (λ x. get (k.key x) xs ≡ some x) p xs (own xs u) h

module _ {R B : Type 0} ⦃equality : Equality B⦄ where
  abbrev pub Distinct : (R → B) → List R → Type 0
  Distinct f [] = Unit
  Distinct f (x ∷ xs) = (any (λ y. f y == f x) xs ≡ false) × Distinct f xs

  pub select-Distinct :
      (f : R → B) (keep : R → Bool) (xs : List R) → Distinct f xs → Distinct f (select keep xs)
  select-Distinct f keep [] u = u
  select-Distinct f keep (x ∷ xs) u = elim (Bool-cases (keep x)) [
    | inl kept ↦ rw kept (any-select _ keep xs u.0, select-Distinct f keep xs u.1)
    | inr dropped ↦ rw dropped (select-Distinct f keep xs u.1)
  ]

  module _ ⦃k : Keyed R⦄ where
    pub without-Distinct :
        (f : R → B) (i : Uuid) (xs : List R) → Distinct f xs → Distinct f (without i xs)
    unfolding without
    without-Distinct f i [] u = u
    without-Distinct f i (x ∷ xs) u = elim (Bool-cases (k.key x == i)) [
      | inl gone ↦ rw gone (without-Distinct f i xs u.1)
      | inr left ↦ rw left (any-without _ i xs u.0, without-Distinct f i xs u.1)
    ]

    pub put-Distinct :
        (f : R → B) (r old : R) (xs : List R)
        → get (k.key r) xs ≡ some old
        → f r ≡ f old
        → Distinct f xs
        → Distinct f (put r xs)
    unfolding get put
    put-Distinct f r old [] h e u = u
    put-Distinct f r old (x ∷ xs) h e u = elim (Bool-cases (k.key x == k.key r)) [
      | inl same ↦
          let e1 : x ≡ old = ground arith in
          let e2 : f r ≡ f x = e ∙ sym (ap f e1) in
          rw same (subst (λ b. any (λ y. f y == b) xs ≡ false) (sym e2) u.0, u.1)
      | inr other ↦ rw other (
        any-put (λ y. f y == f x) r xs (rw other at h) (ap (λ b. b == f x) e) ∙ u.0,
        put-Distinct f r old xs (rw other at h) e u.1,
      )
    ]
