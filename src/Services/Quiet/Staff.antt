-- ===== src/Services/Quiet/Staff.antt =====
-- The services on checkers commit nothing and leave the residents alone.
use vista_authen.Prelude.{String, Bool, Option, none, some}
use vista_authen.Models.{Uuid, Checker, CheckerRole}
use vista_authen.Session.Accounting.{Accounts}
use vista_authen.Externals.{Externals}
use vista_authen.Services.Accounts.{create_checker, update_found, update_checker}
use vista_authen.Services.Quiet.Writes.{account_rules}

pub create_checker-Accounts :
    (x : Externals) (n p : String) (r : CheckerRole) → Accounts (create_checker x n p r)
unfolding create_checker
create_checker-Accounts x n p r = search (account_rules) depth 12

update_found-Accounts :
    (o : Option Checker) (r : Option CheckerRole) (b : Option Bool) → Accounts (update_found o r b)
unfolding update_found
update_found-Accounts none r b = search account_rules depth 12
update_found-Accounts (some c) r b = search account_rules depth 12

pub update_checker-Accounts :
    (i : Uuid) (r : Option CheckerRole) (b : Option Bool) → Accounts (update_checker i r b)
unfolding update_checker
update_checker-Accounts i r b = search (account_rules, update_found-Accounts) depth 12

pub ruleset staff_rules = (create_checker-Accounts, update_checker-Accounts)
