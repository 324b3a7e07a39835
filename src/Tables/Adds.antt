-- ===== src/Tables/Adds.antt =====
-- How an insertion ends: the row is the first of its table, or the database has refused it and
-- nothing is changed.
use vista_authen.Prelude.{◌≡◌, refl, false, Bool, ◌∷◌}
use vista_authen.Models.{BuildingUnit, Resident, Checker, Admin, ActivationToken}
use vista_authen.Session.{World, Result, ok, raised, integrity_error}
use vista_authen.Session.Wp.{Wp, wp-query, wp-raise_if, wp-modify_last}
use vista_authen.Tables.{
  unit_taken, add_unit, resident_refused, add_resident, checker_taken, add_checker, admin_taken,
  add_admin, token_refused, add_token,
}

-- From `w`, with the table grown in `u`; `refused` is the database's test.
abbrev pub Adds : World → World → Bool → Result (Unit {0}) → World → Type 0
Adds w u refused (ok a) v = (v ≡ u) × (refused ≡ false)
Adds w u refused (raised e) v = (v ≡ w) × (e ≡ integrity_error)

module _ (w : World) where
  pub add_unit-Adds :
      (r : BuildingUnit)
      → Wp
          (add_unit r)
          w
          (Adds w (record w { db = record w.db { units = r ∷ w.db.units } }) (unit_taken w.db r))
  unfolding add_unit
  add_unit-Adds r =
      wp-query _ _
        (wp-raise_if _ _ _ (λ fits. wp-modify_last _ (refl, fits)) (λ refused. (refl, refl)))

  pub add_resident-Adds :
      (r : Resident)
      → Wp (add_resident r) w (
          Adds w
            (record w { db = record w.db { residents = r ∷ w.db.residents } })
            (resident_refused w.db r))
  unfolding add_resident
  add_resident-Adds r =
      wp-query _ _
        (wp-raise_if _ _ _ (λ fits. wp-modify_last _ (refl, fits)) (λ refused. (refl, refl)))

  pub add_checker-Adds :
      (r : Checker)
      → Wp (add_checker r) w (
          Adds w
            (record w { db = record w.db { checkers = r ∷ w.db.checkers } })
            (checker_taken w.db r))
  unfolding add_checker
  add_checker-Adds r =
      wp-query _ _
        (wp-raise_if _ _ _ (λ fits. wp-modify_last _ (refl, fits)) (λ refused. (refl, refl)))

  pub add_admin-Adds :
      (r : Admin)
      → Wp
          (add_admin r)
          w
          (Adds w (record w { db = record w.db { admins = r ∷ w.db.admins } }) (admin_taken w.db r))
  unfolding add_admin
  add_admin-Adds r =
      wp-query _ _
        (wp-raise_if _ _ _ (λ fits. wp-modify_last _ (refl, fits)) (λ refused. (refl, refl)))

  pub add_token-Adds :
      (r : ActivationToken)
      → Wp (add_token r) w (
          Adds w
            (record w { db = record w.db { activation_tokens = r ∷ w.db.activation_tokens } })
            (token_refused w.db r))
  unfolding add_token
  add_token-Adds r =
      wp-query _ _
        (wp-raise_if _ _ _ (λ fits. wp-modify_last _ (refl, fits)) (λ refused. (refl, refl)))
