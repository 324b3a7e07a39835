-- ===== src/Routes/Quiet/Deps.antt =====
-- Finding the caller, checking a body and counting a call only read.
use vista_authen.Prelude.{◌≡◌, refl, ℕ, String, Bool, Option, none, some, List}
use vista_authen.Models.{Admin, Checker, AdminRole, Json, Details}
use vista_authen.Session.{
  M, World, Result, ok, raised, value_error, http, integrity_error, multiple_results, type_error,
  library_error,
}
use vista_authen.Session.Reads.{Reads, read_rules}
use vista_authen.Session.Accounting.{Unsilent, Accounts, accounting_rules}
use vista_authen.Config.{Settings}
use vista_authen.Externals.{Externals}
use vista_authen.Security.{decode_access_token, create_access_token}
use vista_authen.Deps.{
  uuid_claim, active_admin, active_checker, load_admin, load_checker, get_current_admin,
  get_current_checker, User, require_user_role, require_admin_role, get_current_admin_or_checker,
  require_staff_admin_or_manager,
}
use vista_authen.Limiter.{Caller, header_key, get_checker_rate_limit_key, rate_limit}
use vista_authen.Routes.Http.{validate, or_not_found, uuid_arg, or_bad_request, bad_request}

uuid_claim-Reads : (v : Json) → Reads (uuid_claim v)
unfolding uuid_claim
uuid_claim-Reads (Json.text s) = search read_rules
uuid_claim-Reads Json.null = search read_rules
uuid_claim-Reads (Json.bool b) = search read_rules
uuid_claim-Reads (Json.num n) = search read_rules
uuid_claim-Reads (Json.date d) = search read_rules

pub validate-Reads : (b : Bool) → Reads (validate b)
unfolding validate
validate-Reads b = search read_rules

pub or_not_found-Reads : {A : Type 0} (o : Option A) → Reads (or_not_found o)
unfolding or_not_found
or_not_found-Reads o = search read_rules

pub uuid_arg-Reads : (s : String) → Reads (uuid_arg s)
unfolding uuid_arg
uuid_arg-Reads s = search read_rules

accounted :
    {A : Type 0} (w v : World) (r : Result A)
    → ((a : A) → r ≡ ok a → Unsilent w v)
    → (a : A) → bad_request r ≡ ok a
    → Unsilent w v
accounted w v (ok b) h a e = h b refl
accounted w v (raised (value_error r)) h a e = absurd (cc)
accounted w v (raised (http n)) h a e = absurd (cc)
accounted w v (raised integrity_error) h a e = absurd (cc)
accounted w v (raised multiple_results) h a e = absurd (cc)
accounted w v (raised type_error) h a e = absurd (cc)
accounted w v (raised (library_error t)) h a e = absurd (cc)

pub or_bad_request-Accounts : {A : Type 0} {m : M A} → Accounts m → Accounts (or_bad_request m)
unfolding or_bad_request
or_bad_request-Accounts {m} q = record {
  quiet = record { at = λ w. q.quiet.at w; logs = λ w. q.quiet.logs w };
  at = λ w. accounted w (m w).1 (m w).0 (q.at w);
}

decode_access_token-Reads :
    (x : Externals) (cfg : Settings) (t : String) → Reads (decode_access_token x cfg t)
unfolding decode_access_token
decode_access_token-Reads x cfg t = search read_rules

pub create_access_token-Reads :
    (x : Externals) (cfg : Settings) (c : Details) → Reads (create_access_token x cfg c)
unfolding create_access_token
create_access_token-Reads x cfg c = search read_rules

pub rate_limit-Reads : (n : ℕ) (k : String) → Reads (rate_limit n k)
unfolding rate_limit
rate_limit-Reads n k = search read_rules

active_admin-Reads : (o : Option Admin) → Reads (active_admin o)
unfolding active_admin
active_admin-Reads none = search read_rules
active_admin-Reads (some a) = search read_rules

active_checker-Reads : (o : Option Checker) → Reads (active_checker o)
unfolding active_checker
active_checker-Reads none = search read_rules
active_checker-Reads (some c) = search read_rules

load_admin-Reads : (v : Json) → Reads (load_admin v)
unfolding load_admin
load_admin-Reads v = search (read_rules, uuid_claim-Reads, active_admin-Reads)

load_checker-Reads : (v : Json) → Reads (load_checker v)
unfolding load_checker
load_checker-Reads v = search (read_rules, uuid_claim-Reads, active_checker-Reads)

require_user_role-Reads : (u : User) → Reads (require_user_role u)
unfolding require_user_role
require_user_role-Reads (User.admin a) = search read_rules
require_user_role-Reads (User.checker c) = search read_rules

module _ (x : Externals) (cfg : Settings) where
  get_current_admin-Reads : (c : String) → Reads (get_current_admin x cfg c)
  unfolding get_current_admin
  get_current_admin-Reads c =
      search (read_rules, decode_access_token-Reads, load_admin-Reads) depth 12

  pub get_current_checker-Reads : (c : String) → Reads (get_current_checker x cfg c)
  unfolding get_current_checker
  get_current_checker-Reads c =
      search (read_rules, decode_access_token-Reads, load_checker-Reads) depth 12

  pub require_admin_role-Reads :
      (rs : List AdminRole) (c : String) → Reads (require_admin_role x cfg rs c)
  unfolding require_admin_role
  require_admin_role-Reads rs c = search (read_rules, get_current_admin-Reads)

  get_current_admin_or_checker-Reads : (c : String) → Reads (get_current_admin_or_checker x cfg c)
  unfolding get_current_admin_or_checker
  get_current_admin_or_checker-Reads c =
      search (read_rules, decode_access_token-Reads, load_admin-Reads, load_checker-Reads) depth 12

  pub require_staff_admin_or_manager-Reads :
      (c : String) → Reads (require_staff_admin_or_manager x cfg c)
  unfolding require_staff_admin_or_manager
  require_staff_admin_or_manager-Reads c =
      search (read_rules, get_current_admin_or_checker-Reads, require_user_role-Reads)

  header_key-Reads : (o : Option String) → Reads (header_key x cfg o)
  unfolding header_key
  header_key-Reads none = search read_rules
  header_key-Reads (some h) = search (read_rules, decode_access_token-Reads)

  pub get_checker_rate_limit_key-Reads : (c : Caller) → Reads (get_checker_rate_limit_key x cfg c)
  unfolding get_checker_rate_limit_key
  get_checker_rate_limit_key-Reads c = search (read_rules, header_key-Reads)

pub ruleset checking_rules = (
  read_rules, validate-Reads, or_not_found-Reads, uuid_arg-Reads, create_access_token-Reads,
  rate_limit-Reads, get_current_checker-Reads, require_admin_role-Reads,
  require_staff_admin_or_manager-Reads, get_checker_rate_limit_key-Reads,
)

pub ruleset deps_rules = (or_bad_request-Accounts, accounting_rules, checking_rules)
