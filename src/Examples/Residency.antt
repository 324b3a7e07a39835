-- ===== src/Examples/Residency.antt =====
-- Registrations, revocations and changes of the unit in the small building.
use vista_authen.Residency.Reuse.{register_device_once}
use vista_authen.Session.{raised, value_error, token_already_used}
use vista_authen.Rows.{UniqueKeys, has, token_keyed}
use vista_authen.Prelude.{◌≤◌, ◌≡◌, refl, false, none, some, [], ◌∷◌, arith, String_eq}
use vista_authen.Prelude.Int.{pos}
use vista_authen.Models.{aware, Resident, ActivationToken, pending}
use vista_authen.Session.{World, ok, ◌>>=◌}
use vista_authen.Config.{settings}
use vista_authen.Rows.{resident_keyed, unit_keyed, get, has, put}
use vista_authen.Services.Logging.{log, log_resident_action}
use vista_authen.Tables.{
  add_resident, resident_refused, add_token, token_refused, add_log, log_refused,
  scalar_one_or_none, active_resident_count,
}
use vista_authen.Python.Strings.{split}
use vista_authen.Python.Numbers.{parse_int}
use vista_authen.Python.UuidText.{hex, parse_uuid}
use vista_authen.Python.Base64.{b64decode}
use vista_authen.Services.Crypto.{verify_signature}
use vista_authen.Services.Residents.{
  provision_in, ownership, new_resident, new_token, revoke_found, find_token, check_token,
  bind_device, revoke, register_device, as_revoked, activated, provision,
}
use vista_authen.Routes.Http.{with_session, or_bad_request}
use vista_authen.Scans.{Admits}
use vista_authen.Residency.Contacts.{Amends, contact_outcome, update_contact-Amends}
use vista_authen.Services.Residents.{update_contact}
use vista_authen.Residency.Revocation.{Bars, revoke-Bars}
use vista_authen.Residency.Activation.{Bound, register_device_binds}
use vista_authen.Services.Units.{update_capacity}
use vista_authen.Residency.Capacity.{Resizes, update_capacity_lem}
use vista_authen.Residency.Registration.{Registered, provision_registers}
use vista_authen.Residency.Refusals.{Unrecorded, provision-Unrecorded}
use vista_authen.Examples.{programs, flat, owner, tenant, building, morning, code}

revoke-Bars_example : Bars 6 morning (revoke 6 (some 8) morning).0 (revoke 6 (some 8) morning).1
revoke-Bars_example = revoke-Bars 6 (some 8) morning

update_contact-Amends_example :
    Amends 6
      (contact_outcome (get 6 building.residents) (some " 2 ") none)
      morning
      (update_contact 6 (some " 2 ") none (some 8) morning).0
      (update_contact 6 (some " 2 ") none (some 8) morning).1
update_contact-Amends_example = update_contact-Amends 6 (some " 2 ") none (some 8) morning

-- after the device of the owner has been revoked, and after that of the tenant has been registered
abbrev revoked_world : World
revoked_world = (revoke 5 (some 8) morning).1

abbrev pub registered_world : World
registered_world = (register_device "invitation" "pem2" morning).1

tenant_revoked : revoke 5 (some 8) morning ≡ (ok (some (as_revoked 0 tenant)), revoked_world)
unfolding ◌>>=◌ revoke revoke_found log_resident_action log add_log log_refused get has put
tenant_revoked = refl

pub tenant_registered :
    register_device "invitation" "pem2" morning ≡ (ok (activated "pem2" tenant), registered_world)
unfolding ◌>>=◌ register_device find_token check_token bind_device log_resident_action log add_log
    log_refused get has put scalar_one_or_none
tenant_registered = refl

owner_Admits : Admits programs settings revoked_world.db 0 code owner
unfolding ◌>>=◌ revoke revoke_found log_resident_action log add_log log_refused get has put split
    parse_uuid parse_int b64decode verify_signature
owner_Admits = record {
  size = ground arith;
  id_text = "00000000000000000000000000000006";
  timestamp_text = "0";
  signature_text = "TWE=";
  parts = refl;
  id = 6;
  id_parses = refl;
  timestamp = pos 0;
  timestamp_parses = refl;
  timely = ground arith;
  found = refl;
  signed = record {
    is_active = refl;
    key = "pem";
    has_key = refl;
    signature = 77 ∷ 97 ∷ [];
    decodes = refl;
    verifies = refl;
  };
}

register_device_binds_example :
    Bound "invitation" "pem2" morning (activated "pem2" tenant) registered_world
register_device_binds_example =
    register_device_binds "invitation" "pem2" morning registered_world (activated "pem2" tenant)
      tenant_registered

building_full : 2 ≤ active_resident_count 1 building
unfolding active_resident_count
building_full = ground arith

building_flat : get 1 building.units ≡ some flat
unfolding get
building_flat = refl

provision-Unrecorded_example :
    Unrecorded morning
      (with_session (or_bad_request (provision settings 1 "Cyd" none none (some 8))) morning).0
      (with_session (or_bad_request (provision settings 1 "Cyd" none none (some 8))) morning).1
provision-Unrecorded_example =
    provision-Unrecorded settings 1 "Cyd" none none (some 8) morning flat building_flat
      building_full

update_capacity_example :
    Resizes 1 4 morning (update_capacity 1 4 morning).0 (update_capacity 1 4 morning).1
update_capacity_example = update_capacity_lem 1 4 morning

-- the building with a third place
abbrev pub with_room : World
with_room = record morning {
  db = record building { units = record flat { max_residents = 3 } ∷ [] };
}

abbrev pub newcomer : Resident
newcomer = record {
  id = 100;
  unit_id = 1;
  name = "Cyd";
  public_key = none;
  status = pending;
  is_owner = false;
  phone = none;
  email = none;
  created_at = aware 0;
  revoked_at = none;
}

abbrev pub letter : ActivationToken
letter = record {
  id = 102;
  resident_id = 100;
  token = "00000000000000000000000000000065";
  expires_at = aware 86400000000;
  used_at = none;
}

abbrev pub housed_world : World
housed_world = (provision settings 1 "Cyd" none none (some 8) with_room).1

pub newcomer_housed :
    provision settings 1 "Cyd" none none (some 8) with_room ≡ (ok (newcomer, letter), housed_world)
unfolding ◌>>=◌ provision provision_in ownership new_resident new_token active_resident_count
    add_resident resident_refused add_token token_refused log_resident_action log add_log
    log_refused get has hex
newcomer_housed = refl

provision_registers_example :
    Registered settings 1 "Cyd" none none with_room newcomer letter housed_world
provision_registers_example =
    provision_registers settings 1 "Cyd" none none (some 8) with_room housed_world newcomer letter
      newcomer_housed

invitation_alone : UniqueKeys building.activation_tokens
unfolding has
invitation_alone = (refl, tt)

register_device_once_example :
    ((register_device "invitation" "pem3" registered_world).0
      ≡ raised (value_error token_already_used))
    × ((register_device "invitation" "pem3" registered_world).1 ≡ registered_world)
register_device_once_example =
    register_device_once "invitation" "pem2" "pem3" morning registered_world registered_world
      (activated "pem2" tenant) invitation_alone tenant_registered refl
