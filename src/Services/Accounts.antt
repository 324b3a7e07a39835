-- ===== src/Services/Accounts.antt =====
-- app/services/checker_service.py and app/services/admin_service.py.
use vista_authen.Prelude.{
  String, Bool, true, false, not, Option, none, some, List, ◌==◌, String_eq, select, leb,
  if◌then◌else◌,
}
use vista_authen.Prelude.Sorting.{sort_by}
use vista_authen.Models.{Uuid, Checker, Admin, CheckerRole, AdminRole, micros}
use vista_authen.Session.{
  M, pure, query, modify, raise_if, uuid4, server_now, ◌>>=◌, ◌>>◌, value_error, username_taken,
}
use vista_authen.Externals.{Externals}
use vista_authen.Security.{hash_password, verify_password}
use vista_authen.Rows.{get, put, checker_keyed, admin_keyed}
use vista_authen.Tables.{add_checker, add_admin, scalar_one_or_none}

abbrev pub is_some : {A : Type 0} → Option A → Bool
is_some none = false
is_some (some a) = true

unfoldable pub checker_by_name : String → M (Option Checker)
checker_by_name username = do
  rows ← query (λ d. select (λ c. c.username == username) d.checkers)
  scalar_one_or_none rows

unfoldable pub admin_by_name : String → M (Option Admin)
admin_by_name username = do
  rows ← query (λ d. select (λ a. a.username == username) d.admins)
  scalar_one_or_none rows

module _ (x : Externals) where
  -- CheckerService.create
  unfoldable pub create_checker : String → String → CheckerRole → M Checker
  create_checker username password role = do
    existing ← checker_by_name username
    raise_if (is_some existing) (value_error (username_taken username))
    hashed ← hash_password x password
    id ← uuid4
    now ← server_now
    let checker : Checker = record {
      id = id;
      username = username;
      hashed_password = hashed;
      role = role;
      is_active = true;
      created_at = now;
    }
    add_checker checker
    pure checker

  -- AdminService.create
  unfoldable pub create_admin : String → String → AdminRole → M Admin
  create_admin username password role = do
    existing ← admin_by_name username
    raise_if (is_some existing) (value_error (username_taken username))
    hashed ← hash_password x password
    id ← uuid4
    now ← server_now
    let admin : Admin = record {
      id = id;
      username = username;
      hashed_password = hashed;
      role = role;
      is_active = true;
      created_at = now;
    }
    add_admin admin
    pure admin

  unfoldable pub admit_checker : Option Checker → String → M (Option Checker)
  admit_checker none password = pure none
  admit_checker (some checker) password = if not checker.is_active then pure none else do
    valid ← verify_password x password checker.hashed_password
    if not valid then pure none else pure (some checker)

  -- CheckerService.authenticate
  unfoldable pub authenticate_checker : String → String → M (Option Checker)
  authenticate_checker username password = do
    checker ← checker_by_name username
    admit_checker checker password

  unfoldable pub admit_admin : Option Admin → String → M (Option Admin)
  admit_admin none password = pure none
  admit_admin (some admin) password = if not admin.is_active then pure none else do
    valid ← verify_password x password admin.hashed_password
    if not valid then pure none else pure (some admin)

  -- AdminService.authenticate
  unfoldable pub authenticate_admin : String → String → M (Option Admin)
  authenticate_admin username password = do
    admin ← admin_by_name username
    admit_admin admin password

abbrev pub given {ℓ} : {A : Type ℓ} → Option A → A → A
given none old = old
given (some new) old = new

abbrev pub with_changes : Option CheckerRole → Option Bool → Checker → Checker
with_changes role is_active checker = record checker {
  role = given role checker.role;
  is_active = given is_active checker.is_active;
}

unfoldable pub update_found : Option Checker → Option CheckerRole → Option Bool → M (Option Checker)
update_found none role is_active = pure none
update_found (some checker) role is_active = do
  modify (λ d. record d { checkers = put (with_changes role is_active checker) d.checkers })
  pure (some (with_changes role is_active checker))

-- CheckerService.update
unfoldable pub update_checker : Uuid → Option CheckerRole → Option Bool → M (Option Checker)
update_checker checker_id role is_active = do
  checker ← query (λ d. get checker_id d.checkers)
  update_found checker role is_active

-- CheckerService.list_all
unfoldable pub list_checkers : M (List Checker)
list_checkers =
    query λ d. sort_by (λ a b. leb (micros a.created_at) (micros b.created_at)) d.checkers

-- CheckerService.get and AdminService.get
unfoldable pub get_checker : Uuid → M (Option Checker)
get_checker checker_id = query (λ d. get checker_id d.checkers)

unfoldable pub get_admin : Uuid → M (Option Admin)
get_admin admin_id = query (λ d. get admin_id d.admins)
