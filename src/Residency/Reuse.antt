-- ===== src/Residency/Reuse.antt =====
-- An activation token is refused the second time.
use vista_authen.Prelude.{
  ◌≡◌, refl, String, Bool, true, false, List, [], ◌∷◌, arith, ap, sym, subst, ◌∙◌, select,
  select-head, ◌==◌, ℕ_eq, String_eq, Bool-cases, inl, inr,
}
use vista_authen.Models.{ActivationToken, Resident}
use vista_authen.Session.{World, ok, raised, value_error, token_already_used, ◌>>=◌}
use vista_authen.Rows.{has, put, has-select, UniqueKeys, token_keyed}
use vista_authen.Tables.{scalar_one_or_none}
use vista_authen.Services.Residents.{find_token, check_token, register_device, consumed}
use vista_authen.Residency.Activation.{Bound, register_device_binds}

put-hit :
    (r x : ActivationToken) (xs : List ActivationToken) → x.id ≡ r.id → put r (x ∷ xs) ≡ r ∷ xs
unfolding put
put-hit r x xs h = ground arith

put-miss :
    (r x : ActivationToken) (xs : List ActivationToken)
    → (x.id ≡ r.id → ⊥)
    → put r (x ∷ xs) ≡ x ∷ put r xs
unfolding put
put-miss r x xs h = ground arith

-- A key that is not in a table is not that of a row selected from it.
selected_elsewhere :
    (p : ActivationToken → Bool) (x t : ActivationToken) (xs : List ActivationToken)
    → has x.id xs ≡ false
    → select p xs ≡ t ∷ []
    → x.id ≡ t.id
    → ⊥
unfolding has
selected_elsewhere p x t xs absent h same =
    let e : has x.id (t ∷ []) ≡ false =
      subst (λ ys. has x.id ys ≡ false) h (has-select x.id p xs absent) in
    ground (arith, e, same)

-- Where keys are unique, an update of the only selected row is the only selected row.
select-put :
    (p : ActivationToken → Bool) (t r : ActivationToken) (xs : List ActivationToken)
    → UniqueKeys xs
    → r.id ≡ t.id
    → p r ≡ true
    → select p xs ≡ t ∷ []
    → select p (put r xs) ≡ r ∷ []
select-put p t r [] u same passes h = absurd (cc)
select-put p t r (x ∷ xs) u same passes h = elim (Bool-cases (p x)) [
  | inl first ↦
      let e : x ∷ select p xs ≡ t ∷ [] = rw first at h in
      let rest : select p xs ≡ [] = cc in
      let head : x ≡ t = cc in
      rw (put-hit r x xs (ap (λ (y : ActivationToken). y.id) head ∙ sym same))
        (rw passes (ap (λ ys. r ∷ ys) rest))
  | inr other ↦
      let e : select p xs ≡ t ∷ [] = rw other at h in
      rw (put-miss r x xs (λ k. selected_elsewhere p x t xs u.0 e (k ∙ same)))
        (rw other (select-put p t r xs u.1 same passes e))
]

-- Once a registration with a token text has returned, another with the same text, whatever its key,
-- is refused as already used and changes nothing, as long as the tokens are as the first has left
-- them; their keys are unique.
pub register_device_once :
    (s pem other_pem : String) (w v u : World) (r : Resident)
    → UniqueKeys w.db.activation_tokens
    → register_device s pem w ≡ (ok r, v)
    → u.db.activation_tokens ≡ v.db.activation_tokens
    → (register_device s other_pem u).0 ≡ raised (value_error token_already_used)
      × ((register_device s other_pem u).1 ≡ u)
unfolding register_device find_token check_token scalar_one_or_none ◌>>=◌
register_device_once s pem other_pem w v u r unique done same =
    let b : Bound s pem w r v = register_device_binds s pem w v r done in
    let e : select (λ x. x.token == s) u.db.activation_tokens ≡ consumed b.used.0 b.token ∷ [] =
      ap (select (λ x. x.token == s)) (same ∙ b.used.1)
      ∙ select-put (λ x. x.token == s) b.token (consumed b.used.0 b.token) w.db.activation_tokens
          unique refl (select-head (λ x. x.token == s) w.db.activation_tokens b.only) b.only in
    rw e (refl, refl)
