-- ===== src/Examples/Racing.antt =====
-- Two newcomers and one place in the small building.
use vista_authen.Prelude.{◌≡◌, refl, none, some, suc}
use vista_authen.Models.{Resident, ActivationToken, aware}
use vista_authen.Session.{World, ok, ◌>>=◌}
use vista_authen.Config.{settings}
use vista_authen.Rows.{get, has, unit_keyed}
use vista_authen.Tables.{
  active_resident_count, add_resident, resident_refused, add_token, token_refused, add_log,
  log_refused,
}
use vista_authen.Python.UuidText.{hex}
use vista_authen.Services.Logging.{log, log_resident_action}
use vista_authen.Services.Residents.{provision, provision_in, ownership, new_resident, new_token}
use vista_authen.Residency.Racing.{provision-provision_in}
use vista_authen.Examples.{flat}
use vista_authen.Examples.Residency.{with_room, newcomer, letter, housed_world, newcomer_housed}

abbrev latecomer : Resident
latecomer = record newcomer { id = 104; name = "Dan" }

abbrev second_letter : ActivationToken
second_letter = record letter {
  id = 106;
  resident_id = 104;
  token = "00000000000000000000000000000069";
  expires_at = aware 86400000001;
}

abbrev crowded_world : World
crowded_world = (provision_in settings 1 "Dan" none none (some 8) housed_world).1

latecomer_housed :
    provision_in settings 1 "Dan" none none (some 8) housed_world
    ≡ (ok (latecomer, second_letter), crowded_world)
unfolding ◌>>=◌ provision provision_in ownership new_resident new_token active_resident_count
    add_resident resident_refused add_token token_refused log_resident_action log add_log
    log_refused get has hex
latecomer_housed = refl

one_place : suc (active_resident_count 1 with_room.db) ≡ 3
unfolding active_resident_count
one_place = refl

roomy_flat : get 1 with_room.db.units ≡ some (record flat { max_residents = 3 })
unfolding get
roomy_flat = refl

provision-provision_in_example :
    (provision settings 1 "Dan" none none (some 8) with_room
      ≡ provision_in settings 1 "Dan" none none (some 8) with_room)
    × (active_resident_count 1 crowded_world.db ≡ 4)
provision-provision_in_example =
    provision-provision_in settings 1 (record flat { max_residents = 3 }) with_room housed_world
      housed_world crowded_world newcomer latecomer letter second_letter "Cyd" "Dan" none none none
      none (some 8) (some 8) roomy_flat one_place newcomer_housed refl latecomer_housed
