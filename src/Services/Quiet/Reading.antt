-- ===== src/Services/Quiet/Reading.antt =====
-- The services that only read: the queries, the passwords and the checks of a token.
use vista_authen.Prelude.{ℕ, String, Bool, Option, none, some, List, [], ◌∷◌}
use vista_authen.Models.{Uuid, Resident, ActivationToken, Checker, Admin}
use vista_authen.Session.Reads.{Reads, read_rules}
use vista_authen.Externals.{Externals}
use vista_authen.Security.{hash_password, verify_password}
use vista_authen.Tables.{scalar_one_or_none}
use vista_authen.Services.Units.{get_by_id, list_all}
use vista_authen.Services.Residents.{ownership, find_token, check_token, list_by_unit}
use vista_authen.Services.Residents as Residents
use vista_authen.Services.Accounts.{
  checker_by_name, admin_by_name, admit_checker, authenticate_checker, admit_admin,
  authenticate_admin, list_checkers,
}
use vista_authen.Services.Audit.{list_logs}

pub scalar_one_or_none-Reads : {A : Type 0} (xs : List A) → Reads (scalar_one_or_none xs)
unfolding scalar_one_or_none
scalar_one_or_none-Reads [] = search read_rules
scalar_one_or_none-Reads (x ∷ []) = search read_rules
scalar_one_or_none-Reads (x ∷ y ∷ xs) = search read_rules

ruleset scalar_rules = (read_rules, scalar_one_or_none-Reads)

pub get_by_id-Reads : (i : Uuid) → Reads (get_by_id i)
unfolding get_by_id
get_by_id-Reads i = search scalar_rules depth 12

pub list_all-Reads : (f : String → String → Bool) → Reads (list_all f)
unfolding list_all
list_all-Reads f = search scalar_rules depth 12

pub ownership-Reads : (o : Option Resident) (p e : Option String) → Reads (ownership o p e)
unfolding ownership
ownership-Reads none p e = search scalar_rules depth 12
ownership-Reads (some o) p e = search scalar_rules depth 12

pub find_token-Reads : (s : String) → Reads (find_token s)
unfolding find_token
find_token-Reads s = search scalar_rules depth 12

pub check_token-Reads : (t : ActivationToken) → Reads (check_token t)
unfolding check_token
check_token-Reads t = search scalar_rules depth 12

pub list_by_unit-Reads : (f : String → String → Bool) (i : Uuid) → Reads (list_by_unit f i)
unfolding list_by_unit
list_by_unit-Reads f i = search scalar_rules depth 12

pub resident_by_id-Reads : (i : Uuid) → Reads (Residents.get_by_id i)
unfolding Residents.get_by_id
resident_by_id-Reads i = search scalar_rules depth 12

pub checker_by_name-Reads : (s : String) → Reads (checker_by_name s)
unfolding checker_by_name
checker_by_name-Reads s = search scalar_rules depth 12

pub admin_by_name-Reads : (s : String) → Reads (admin_by_name s)
unfolding admin_by_name
admin_by_name-Reads s = search scalar_rules depth 12

pub hash_password-Reads : (x : Externals) (p : String) → Reads (hash_password x p)
unfolding hash_password
hash_password-Reads x p = search scalar_rules depth 12

pub verify_password-Reads : (x : Externals) (p h : String) → Reads (verify_password x p h)
unfolding verify_password
verify_password-Reads x p h = search scalar_rules depth 12

pub admit_checker-Reads :
    (x : Externals) (o : Option Checker) (p : String) → Reads (admit_checker x o p)
unfolding admit_checker
admit_checker-Reads x none p = search (scalar_rules, verify_password-Reads) depth 12
admit_checker-Reads x (some c) p = search (scalar_rules, verify_password-Reads) depth 12

pub authenticate_checker-Reads : (x : Externals) (n p : String) → Reads (authenticate_checker x n p)
unfolding authenticate_checker
authenticate_checker-Reads x n p =
    search (scalar_rules, checker_by_name-Reads, admit_checker-Reads) depth 12

pub admit_admin-Reads : (x : Externals) (o : Option Admin) (p : String) → Reads (admit_admin x o p)
unfolding admit_admin
admit_admin-Reads x none p = search (scalar_rules, verify_password-Reads) depth 12
admit_admin-Reads x (some c) p = search (scalar_rules, verify_password-Reads) depth 12

pub authenticate_admin-Reads : (x : Externals) (n p : String) → Reads (authenticate_admin x n p)
unfolding authenticate_admin
authenticate_admin-Reads x n p =
    search (scalar_rules, admin_by_name-Reads, admit_admin-Reads) depth 12

pub list_checkers-Reads : Reads (list_checkers)
unfolding list_checkers
list_checkers-Reads = search scalar_rules depth 12

pub list_logs-Reads :
    (a : Option String) (u : Option Uuid) (r : Option String) (n k : ℕ)
    → Reads (list_logs a u r n k)
unfolding list_logs
list_logs-Reads a u r n k = search scalar_rules depth 12

pub ruleset reading_rules = (
  get_by_id-Reads, list_all-Reads, ownership-Reads, find_token-Reads, check_token-Reads,
  list_by_unit-Reads, resident_by_id-Reads, checker_by_name-Reads, admin_by_name-Reads,
  hash_password-Reads, verify_password-Reads, admit_checker-Reads, authenticate_checker-Reads,
  admit_admin-Reads, authenticate_admin-Reads, list_checkers-Reads, list_logs-Reads,
)
