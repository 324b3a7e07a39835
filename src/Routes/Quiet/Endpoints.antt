-- ===== src/Routes/Quiet/Endpoints.antt =====
-- Every endpoint but the clean-up's commits nothing by itself: the session that it runs in does; and
-- it logs where it changes a resident.
-- The lists, the single rows and the logins only read.
use vista_authen.Prelude.{ℕ, String, Bool, Option, none, some}
use vista_authen.Models.{CheckerRole}
use vista_authen.Session.Accounting.{Accounts}
use vista_authen.Config.{Settings}
use vista_authen.Externals.{Externals}
use vista_authen.Limiter.{Caller}
use vista_authen.Services.Quiet.Units.{unit_rules}
use vista_authen.Services.Quiet.Residents.{resident_rules}
use vista_authen.Services.Quiet.Staff.{staff_rules}
use vista_authen.Services.Quiet.Scans.{scan_rules}
use vista_authen.Routes.Units.{create_unit, list_units, get_unit, update_unit_capacity, delete_unit}
use vista_authen.Routes.Residents.{
  register_device, provision_resident, revoke_resident, update_resident_contact, get_resident,
  list_residents_by_unit,
}
use vista_authen.Routes.Staff.{
  create_checker, list_checkers, update_checker, admin_login, checker_login,
}
use vista_authen.Routes.Scans.{optional_uuid, verify_qr, list_audit_logs}
use vista_authen.Routes.Quiet.Deps.{checking_rules, deps_rules}
use vista_authen.Session.Reads.{Reads}
use vista_authen.Services.Quiet.Reading.{reading_rules}

optional_uuid-Reads : (o : Option String) → Reads (optional_uuid o)
unfolding optional_uuid
optional_uuid-Reads none = search checking_rules
optional_uuid-Reads (some s) = search checking_rules

module _ (x : Externals) (cfg : Settings) where
  pub create_unit-Accounts : (c n : String) (k : ℕ) → Accounts (create_unit x cfg c n k)
  unfolding create_unit
  create_unit-Accounts c n k = search (deps_rules, unit_rules) depth 12

  pub list_units-Reads : (c : String) → Reads (list_units x cfg c)
  unfolding list_units
  list_units-Reads c = search (checking_rules, reading_rules) depth 12

  pub get_unit-Reads : (c i : String) → Reads (get_unit x cfg c i)
  unfolding get_unit
  get_unit-Reads c i = search (checking_rules, reading_rules) depth 12

  pub update_unit_capacity-Accounts :
      (c i : String) (k : ℕ) → Accounts (update_unit_capacity x cfg c i k)
  unfolding update_unit_capacity
  update_unit_capacity-Accounts c i k = search (deps_rules, unit_rules) depth 12

  pub delete_unit-Accounts : (c i : String) → Accounts (delete_unit x cfg c i)
  unfolding delete_unit
  delete_unit-Accounts c i = search (deps_rules, unit_rules) depth 12

  pub post_device-Accounts : (t k : String) → Accounts (register_device x t k)
  unfolding register_device
  post_device-Accounts t k = search (deps_rules, resident_rules) depth 12

  pub provision_resident-Accounts :
      (c i n : String) (p e : Option String) → Accounts (provision_resident x cfg c i n p e)
  unfolding provision_resident
  provision_resident-Accounts c i n p e = search (deps_rules, resident_rules) depth 12

  pub revoke_resident-Accounts : (c i : String) → Accounts (revoke_resident x cfg c i)
  unfolding revoke_resident
  revoke_resident-Accounts c i = search (deps_rules, resident_rules) depth 12

  pub update_resident_contact-Accounts :
      (c i : String) (p e : Option String) → Accounts (update_resident_contact x cfg c i p e)
  unfolding update_resident_contact
  update_resident_contact-Accounts c i p e = search (deps_rules, resident_rules) depth 12

  pub get_resident-Reads : (c i : String) → Reads (get_resident x cfg c i)
  unfolding get_resident
  get_resident-Reads c i = search (checking_rules, reading_rules) depth 12

  pub list_residents_by_unit-Reads : (c i : String) → Reads (list_residents_by_unit x cfg c i)
  unfolding list_residents_by_unit
  list_residents_by_unit-Reads c i = search (checking_rules, reading_rules) depth 12

  pub post_checker-Accounts :
      (c n p : String) (r : CheckerRole) → Accounts (create_checker x cfg c n p r)
  unfolding create_checker
  post_checker-Accounts c n p r = search (deps_rules, staff_rules) depth 12

  pub get_checkers-Reads : (c : String) → Reads (list_checkers x cfg c)
  unfolding list_checkers
  get_checkers-Reads c = search (checking_rules, reading_rules) depth 12

  pub patch_checker-Accounts :
      (c i : String) (r : Option CheckerRole) (a : Option Bool)
      → Accounts (update_checker x cfg c i r a)
  unfolding update_checker
  patch_checker-Accounts c i r a = search (deps_rules, staff_rules) depth 12

  pub admin_login-Reads : (r : Caller) (n p : String) → Reads (admin_login x cfg r n p)
  unfolding admin_login
  admin_login-Reads r n p = search (checking_rules, reading_rules) depth 12

  pub checker_login-Reads : (r : Caller) (n p : String) → Reads (checker_login x cfg r n p)
  unfolding checker_login
  checker_login-Reads r n p = search (checking_rules, reading_rules) depth 12

  pub verify_qr-Accounts : (r : Caller) (c q : String) → Accounts (verify_qr x cfg r c q)
  unfolding verify_qr
  verify_qr-Accounts r c q = search (deps_rules, scan_rules) depth 12

  pub list_audit_logs-Reads :
      (c : String) (a u r : Option String) (n k : ℕ) → Reads (list_audit_logs x cfg c a u r n k)
  unfolding list_audit_logs
  list_audit_logs-Reads c a u r n k =
      search (checking_rules, reading_rules, optional_uuid-Reads) depth 12
