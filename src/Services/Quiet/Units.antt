-- ===== src/Services/Quiet/Units.antt =====
-- The services on units commit nothing and leave the residents alone.
use vista_authen.Prelude.{ℕ, String, Option, none, some}
use vista_authen.Models.{Uuid, BuildingUnit}
use vista_authen.Session.Accounting.{Accounts}
use vista_authen.Services.Units.{create, update_capacity_of, update_capacity, delete_of, delete}
use vista_authen.Services.Quiet.Writes.{account_rules}

pub create-Accounts : (number : String) (n : ℕ) → Accounts (create number n)
unfolding create
create-Accounts number n = search account_rules depth 12

update_capacity_of-Accounts :
    (o : Option BuildingUnit) (i : Uuid) (n : ℕ) → Accounts (update_capacity_of o i n)
unfolding update_capacity_of
update_capacity_of-Accounts none i n = search account_rules depth 12
update_capacity_of-Accounts (some u) i n = search account_rules depth 12

pub update_capacity-Accounts : (i : Uuid) (n : ℕ) → Accounts (update_capacity i n)
unfolding update_capacity
update_capacity-Accounts i n = search (account_rules, update_capacity_of-Accounts) depth 12

delete_of-Accounts : (o : Option BuildingUnit) (i : Uuid) → Accounts (delete_of o i)
unfolding delete_of
delete_of-Accounts none i = search account_rules depth 12
delete_of-Accounts (some u) i = search account_rules depth 12

pub delete-Accounts : (i : Uuid) → Accounts (delete i)
unfolding delete
delete-Accounts i = search (account_rules, delete_of-Accounts) depth 12

pub ruleset unit_rules = (create-Accounts, update_capacity-Accounts, delete-Accounts)
