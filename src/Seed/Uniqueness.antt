-- ===== src/Seed/Uniqueness.antt =====
-- seed.py fills the unique columns with different values.
use vista_authen.Prelude.{sym, subst, arith, String}
use vista_authen.Models.{
  Uuid, Resident, BuildingUnit, Checker, Admin, ActivationToken, DateTime, AdminRole, CheckerRole,
}
use vista_authen.Session.{World, continue, Result, ok, raised, M, commit, ◌>>=◌, ◌>>◌}
use vista_authen.Session.Reads.{Reads, read_rules}
use vista_authen.Session.Wp.{Wp, wp-query, wp-raise_if, wp-modify_last}
use vista_authen.Externals.{Externals}
use vista_authen.Config.{Settings}
use vista_authen.Tables.{
  add_unit, add_resident, add_checker, add_admin, add_token, unit_taken, checker_taken, admin_taken,
  token_refused,
}
use vista_authen.Services.Quiet.Reading.{reading_rules}
use vista_authen.Lifecycle.Uniqueness.{
  IsDistinct, rest-IsDistinct, units-IsDistinct, checkers-IsDistinct, admins-IsDistinct,
  tokens-IsDistinct,
}
use vista_authen.Seed.{
  empty, recreate_tables, seed_admin, seed_checker, seed_unit, seed_resident, seed_staff,
  seed_building, seed,
}

-- a block that keeps the columns unique in what the session sees
record Separates {A : Type 0} (m : M A) : Type 0 where
  at : (w : World) → IsDistinct w.db → IsDistinct (m w).1.db

Reads-Separates : {A : Type 0} {m : M A} → Reads m → Separates m
Reads-Separates r = record { at = λ w u. subst IsDistinct (sym (r.session w)) u }

commit-Separates : Separates commit
unfolding commit
commit-Separates = record { at = λ w u. u }

continue-Separates :
    {A B : Type 0} (r : Result A) (v : World) (f : A → M B)
    → ((a : A) → Separates (f a))
    → IsDistinct v.db
    → IsDistinct (continue (r, v) f).1.db
continue-Separates (ok a) v f q u = (q a).at v u
continue-Separates (raised e) v f q u = u

bind-Separates :
    {A B : Type 0} {m : M A} {f : A → M B}
    → Separates m
    → ((a : A) → Separates (f a))
    → Separates (m >>= f)
unfolding ◌>>=◌
bind-Separates {m} {f} p q = record {
  at = λ w u. continue-Separates (m w).0 (m w).1 f q (p.at w u);
}

-- an insertion, by what it does where the database accepts the row
inserted-Separates :
    {m : M (Unit {0})}
    → ((w : World) → IsDistinct w.db → Wp m w (λ r v. IsDistinct v.db))
    → Separates m
inserted-Separates h = record { at = λ w u. (h w u).at }

add_unit-Separates : (r : BuildingUnit) → Separates (add_unit r)
unfolding add_unit unit_taken
add_unit-Separates r = inserted-Separates (λ w u. wp-query _ _ (
    wp-raise_if _ _ _
      (λ fits. wp-modify_last _ (units-IsDistinct u _ (ground arith, u.unit_numbers))) (λ no. u)))

add_resident-Separates : (r : Resident) → Separates (add_resident r)
unfolding add_resident
add_resident-Separates r = inserted-Separates (λ w u.
    wp-query _ _ (wp-raise_if _ _ _ (λ fits. wp-modify_last _ (rest-IsDistinct u _ _)) (λ no. u)))

add_checker-Separates : (r : Checker) → Separates (add_checker r)
unfolding add_checker checker_taken
add_checker-Separates r = inserted-Separates (λ w u. wp-query _ _ (
    wp-raise_if _ _ _
      (λ fits. wp-modify_last _ (checkers-IsDistinct u _ (ground arith, u.checker_names)))
      (λ no. u)))

add_admin-Separates : (r : Admin) → Separates (add_admin r)
unfolding add_admin admin_taken
add_admin-Separates r = inserted-Separates (λ w u. wp-query _ _ (
    wp-raise_if _ _ _
      (λ fits. wp-modify_last _ (admins-IsDistinct u _ (ground arith, u.admin_names))) (λ no. u)))

add_token-Separates : (r : ActivationToken) → Separates (add_token r)
unfolding add_token token_refused
add_token-Separates r = inserted-Separates (λ w u. wp-query _ _ (
    wp-raise_if _ _ _
      (λ fits.
        wp-modify_last _
          (tokens-IsDistinct u _ (ground arith, u.token_texts) (ground arith, u.token_holders)))
      (λ no. u)))

ruleset separation_rules = (
  bind-Separates, commit-Separates, add_unit-Separates, add_resident-Separates,
  add_checker-Separates, add_admin-Separates, add_token-Separates, reading_rules, read_rules,
  Reads-Separates,
)

seed_admin-Separates : (n h : String) (r : AdminRole) → Separates (seed_admin n h r)
unfolding seed_admin
seed_admin-Separates n h r = search separation_rules

seed_checker-Separates : (n h : String) (r : CheckerRole) → Separates (seed_checker n h r)
unfolding seed_checker
seed_checker-Separates n h r = search separation_rules

seed_unit-Separates : Separates seed_unit
unfolding seed_unit
seed_unit-Separates = search separation_rules

seed_resident-Separates :
    (r : DateTime → Resident) (t : Uuid → ActivationToken) → Separates (seed_resident r t)
unfolding seed_resident
seed_resident-Separates r t = search separation_rules

seed_staff-Separates : (x : Externals) → Separates (seed_staff x)
unfolding seed_staff
seed_staff-Separates x =
    search (seed_admin-Separates, seed_checker-Separates, separation_rules) depth 12

seed_building-Separates : (cfg : Settings) → Separates (seed_building cfg)
unfolding seed_building
seed_building-Separates cfg =
    search (seed_unit-Separates, seed_resident-Separates, separation_rules) depth 12

-- the empty tables, and what is added to them
filled-Separates :
    (x : Externals) (cfg : Settings) → Separates (do seed_staff x; seed_building cfg; commit)
filled-Separates x cfg =
    search (seed_staff-Separates, seed_building-Separates, separation_rules) depth 12

empty-IsDistinct : IsDistinct empty
empty-IsDistinct = record {
  unit_numbers = tt;
  checker_names = tt;
  admin_names = tt;
  token_texts = tt;
  token_holders = tt;
}

pub seed-Separates : (x : Externals) (cfg : Settings) (w : World) → IsDistinct (seed x cfg w).1.db
unfolding seed recreate_tables ◌>>=◌
seed-Separates x cfg w = (filled-Separates x cfg).at _ empty-IsDistinct
