-- ===== src/Services/Quiet/Residents.antt =====
-- The services on residents commit nothing, and log what they change.
use vista_authen.Prelude.{ℕ, String, Bool, Option, none, some}
use vista_authen.Models.{Uuid, BuildingUnit, Resident, ActivationToken}
use vista_authen.Session.Quiet.{Quiet}
use vista_authen.Session.Accounting.{Logs, Accounts}
use vista_authen.Config.{Settings}
use vista_authen.Services.Residents.{
  new_resident, new_token, block_registration, provision_in, provision, bind_device,
  register_device, revoke_found, revoke, set_phone, set_email, update_contact_found, update_contact,
}
use vista_authen.Services.Quiet.Writes.{write_rules, log_rules, account_rules}

new_resident-Quiet :
    (i : Uuid) (n : String) (p e : Option String) (b : Bool) → Quiet (new_resident i n p e b)
unfolding new_resident
new_resident-Quiet i n p e b = search write_rules depth 12

new_token-Quiet : (cfg : Settings) (i : Uuid) → Quiet (new_token cfg i)
unfolding new_token
new_token-Quiet cfg i = search write_rules depth 12

block_registration-Logs :
    {A : Type 0} (a : Option Uuid) (i : Uuid) (n : String) (u : BuildingUnit) (k : ℕ)
    → Logs (block_registration {A = A} a i n u k)
unfolding block_registration
block_registration-Logs a i n u k = search log_rules depth 12

provision_in-Logs :
    (cfg : Settings) (i : Uuid) (n : String) (p e : Option String) (a : Option Uuid)
    → Logs (provision_in cfg i n p e a)
unfolding provision_in
provision_in-Logs cfg i n p e a = search (log_rules, new_resident-Quiet, new_token-Quiet) depth 12

pub provision-Logs :
    (cfg : Settings) (i : Uuid) (n : String) (p e : Option String) (a : Option Uuid)
    → Logs (provision cfg i n p e a)
unfolding provision
provision-Logs cfg i n p e a =
    search (log_rules, block_registration-Logs, provision_in-Logs) depth 12

bind_device-Logs : (t : ActivationToken) (r : Resident) (s : String) → Logs (bind_device t r s)
unfolding bind_device
bind_device-Logs t r s = search log_rules depth 12

pub register_device-Logs : (s k : String) → Logs (register_device s k)
unfolding register_device
register_device-Logs s k = search (log_rules, bind_device-Logs) depth 12

revoke_found-Accounts :
    (o : Option Resident) (i : Uuid) (a : Option Uuid) → Accounts (revoke_found o i a)
unfolding revoke_found
revoke_found-Accounts none i a = search account_rules depth 12
revoke_found-Accounts (some r) i a = search account_rules depth 12

pub revoke-Accounts : (i : Uuid) (a : Option Uuid) → Accounts (revoke i a)
unfolding revoke
revoke-Accounts i a = search (account_rules, revoke_found-Accounts) depth 12

set_phone-Quiet : (p : Option String) (r : Resident) → Quiet (set_phone p r)
unfolding set_phone
set_phone-Quiet none r = search write_rules depth 12
set_phone-Quiet (some p) r = search write_rules depth 12

set_email-Quiet : (p : Option String) (r : Resident) → Quiet (set_email p r)
unfolding set_email
set_email-Quiet none r = search write_rules depth 12
set_email-Quiet (some p) r = search write_rules depth 12

update_contact_found-Accounts :
    (o : Option Resident) (p e : Option String) (a : Option Uuid)
    → Accounts (update_contact_found o p e a)
unfolding update_contact_found
update_contact_found-Accounts none p e a =
    search (account_rules, set_phone-Quiet, set_email-Quiet) depth 12
update_contact_found-Accounts (some r) p e a =
    search (account_rules, set_phone-Quiet, set_email-Quiet) depth 12

pub update_contact-Accounts :
    (i : Uuid) (p e : Option String) (a : Option Uuid) → Accounts (update_contact i p e a)
unfolding update_contact
update_contact-Accounts i p e a = search (account_rules, update_contact_found-Accounts) depth 12

pub ruleset resident_rules =
    (provision-Logs, register_device-Logs, revoke-Accounts, update_contact-Accounts)
