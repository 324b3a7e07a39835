-- ===== src/Permissions/Passwords.antt =====
-- How a login ends.
use vista_authen.Prelude.{
  ◌≡◌, refl, String, Bool, true, false, not, Option, none, some, List, [], ◌∷◌, arith, ◌⊎◌, inl,
  inr, ◌==◌, String_eq, select,
}
use vista_authen.Models.{Checker, Admin}
use vista_authen.Session.{World, Result, ok, raised, multiple_results}
use vista_authen.Session.Wp.{Wp, wp-pure, wp-query, wp-raise, wp-call, wp-if, wp-lift}
use vista_authen.Externals.{Externals}
use vista_authen.Security.{verify_password}
use vista_authen.Tables.{scalar_one_or_none}
use vista_authen.Services.Accounts.{
  checker_by_name, admin_by_name, admit_checker, authenticate_checker, admit_admin,
  authenticate_admin,
}

-- Why a login with the password `p` is turned away, for an account that is (in)active and has `hash`.
abbrev pub Refused : Externals → String → Bool → String → Type 0
Refused x p is_active hash = (is_active ≡ false) ⊎ (x.verify_hash p hash ≡ ok false)

-- The one row, if there is one, for a query that must not find two.
abbrev FindsOne : {A : Type 0} → List A → World → Result (Option A) → World → Type 0
FindsOne xs w (ok none) v = (xs ≡ []) × (v ≡ w)
FindsOne xs w (ok (some x)) v = (xs ≡ x ∷ []) × (v ≡ w)
FindsOne xs w (raised e) v = (e ≡ multiple_results) × (v ≡ w)

scalar_one_or_none-Finds :
    {A : Type 0} (xs : List A) (w : World) → Wp (scalar_one_or_none xs) w (FindsOne xs w)
unfolding scalar_one_or_none
scalar_one_or_none-Finds [] w = wp-pure _ (refl, refl)
scalar_one_or_none-Finds (x ∷ []) w = wp-pure _ (refl, refl)
scalar_one_or_none-Finds (x ∷ y ∷ xs) w = wp-raise _ (refl, refl)

-- How `authenticate` of a checker ends: with the one account of that name, which is active and has the
-- password; with nothing, where there is no such account or it is refused; or with an error, of the
-- hash library or of two accounts of one name. Nothing is changed.
abbrev pub CheckerLogin :
    Externals → String → String → World → Result (Option Checker) → World → Type 0
CheckerLogin x name p w (ok (some c)) v =
    (select (λ a. a.username == name) w.db.checkers ≡ c ∷ [])
    × (c.is_active ≡ true)
    × (x.verify_hash p c.hashed_password ≡ ok true)
    × (v ≡ w)
CheckerLogin x name p w (ok none) v =
    ((select (λ a. a.username == name) w.db.checkers ≡ [])
      ⊎ ((c : Checker) × (select (λ a. a.username == name) w.db.checkers ≡ c ∷ [])
          × Refused x p c.is_active c.hashed_password))
    × (v ≡ w)
CheckerLogin x name p w (raised e) v = v ≡ w

admit_checker-Login :
    (x : Externals) (name p : String) (w : World) (c : Checker)
    → select (λ a. a.username == name) w.db.checkers ≡ c ∷ []
    → Wp (admit_checker x (some c) p) w (CheckerLogin x name p w)
unfolding admit_checker verify_password
admit_checker-Login x name p w c only =
    wp-if (not c.is_active) (λ off. wp-pure _ (inr (c, only, inl (ground arith)), refl))
      (λ on.
        wp-lift _ _
          (λ valid checked.
            wp-if (not valid) (λ wrong. wp-pure _ (inr (c, only, inr (ground arith)), refl))
              (λ right. wp-pure _ (only, ground arith, ground arith, refl)))
          (λ e h. refl))

admit_found_checker-Login :
    (x : Externals) (name p : String) (w v : World) (o : Option Checker)
    → FindsOne (select (λ a. a.username == name) w.db.checkers) w (ok o) v
    → Wp (admit_checker x o p) v (CheckerLogin x name p w)
unfolding admit_checker
admit_found_checker-Login x name p w v none found = wp-pure _ (inl found.0, found.1)
admit_found_checker-Login x name p w v (some c) found =
    rw found.1 (admit_checker-Login x name p w c found.0)

pub authenticate_checker-Login :
    (x : Externals) (name p : String) (w : World)
    → Wp (authenticate_checker x name p) w (CheckerLogin x name p w)
unfolding authenticate_checker checker_by_name
authenticate_checker-Login x name p w =
    wp-call _ _ (wp-query _ _ (scalar_one_or_none-Finds _ w))
      (λ o v found. admit_found_checker-Login x name p w v o found) (λ e v h. h.1)

-- A login of a checker succeeds only with the one account of that name, active and with that password,
-- and fails only where there is none or it is inactive or has another password; it changes nothing.
pub authenticate_checker_lem :
    (x : Externals) (name p : String) (w : World)
    → CheckerLogin x name p w
        (authenticate_checker x name p w).0
        (authenticate_checker x name p w).1
authenticate_checker_lem x name p w = (authenticate_checker-Login x name p w).at

-- How `authenticate` of an admin ends: with the one account of that name, which is active and has the
-- password; with nothing, where there is no such account or it is refused; or with an error, of the
-- hash library or of two accounts of one name. Nothing is changed.
abbrev pub AdminLogin : Externals → String → String → World → Result (Option Admin) → World → Type 0
AdminLogin x name p w (ok (some c)) v =
    (select (λ a. a.username == name) w.db.admins ≡ c ∷ [])
    × (c.is_active ≡ true)
    × (x.verify_hash p c.hashed_password ≡ ok true)
    × (v ≡ w)
AdminLogin x name p w (ok none) v =
    ((select (λ a. a.username == name) w.db.admins ≡ [])
      ⊎ ((c : Admin) × (select (λ a. a.username == name) w.db.admins ≡ c ∷ [])
          × Refused x p c.is_active c.hashed_password))
    × (v ≡ w)
AdminLogin x name p w (raised e) v = v ≡ w

admit_admin-Login :
    (x : Externals) (name p : String) (w : World) (c : Admin)
    → select (λ a. a.username == name) w.db.admins ≡ c ∷ []
    → Wp (admit_admin x (some c) p) w (AdminLogin x name p w)
unfolding admit_admin verify_password
admit_admin-Login x name p w c only =
    wp-if (not c.is_active) (λ off. wp-pure _ (inr (c, only, inl (ground arith)), refl))
      (λ on.
        wp-lift _ _
          (λ valid checked.
            wp-if (not valid) (λ wrong. wp-pure _ (inr (c, only, inr (ground arith)), refl))
              (λ right. wp-pure _ (only, ground arith, ground arith, refl)))
          (λ e h. refl))

admit_found_admin-Login :
    (x : Externals) (name p : String) (w v : World) (o : Option Admin)
    → FindsOne (select (λ a. a.username == name) w.db.admins) w (ok o) v
    → Wp (admit_admin x o p) v (AdminLogin x name p w)
unfolding admit_admin
admit_found_admin-Login x name p w v none found = wp-pure _ (inl found.0, found.1)
admit_found_admin-Login x name p w v (some c) found =
    rw found.1 (admit_admin-Login x name p w c found.0)

pub authenticate_admin-Login :
    (x : Externals) (name p : String) (w : World)
    → Wp (authenticate_admin x name p) w (AdminLogin x name p w)
unfolding authenticate_admin admin_by_name
authenticate_admin-Login x name p w =
    wp-call _ _ (wp-query _ _ (scalar_one_or_none-Finds _ w))
      (λ o v found. admit_found_admin-Login x name p w v o found) (λ e v h. h.1)

-- A login of an admin succeeds only with the one account of that name, active and with that password,
-- and fails only where there is none or it is inactive or has another password; it changes nothing.
pub authenticate_admin_lem :
    (x : Externals) (name p : String) (w : World)
    → AdminLogin x name p w (authenticate_admin x name p w).0 (authenticate_admin x name p w).1
authenticate_admin_lem x name p w = (authenticate_admin-Login x name p w).at
