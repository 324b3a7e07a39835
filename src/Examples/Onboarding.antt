-- ===== src/Examples/Onboarding.antt =====
-- A newcomer to the small building, from the invitation to the device.
use vista_authen.Prelude.{◌≡◌, ◌≤◌, refl, none, some, false, arith}
use vista_authen.Models.{micros}
use vista_authen.Session.{ok, ◌>>=◌}
use vista_authen.Config.{settings}
use vista_authen.Rows.{get, has, unit_keyed, audit_log_keyed}
use vista_authen.Tables.{
  active_resident_count, add_resident, resident_refused, add_token, token_refused, add_log,
  log_refused,
}
use vista_authen.Python.UuidText.{hex}
use vista_authen.Services.Logging.{log, log_resident_action}
use vista_authen.Services.Residents.{
  activated, provision, provision_in, ownership, new_resident, new_token, register_device,
}
use vista_authen.Residency.Onboarding.{provision-register_device}
use vista_authen.Examples.Residency.{newcomer, letter, housed_world, newcomer_housed}

newcomer_in_time : housed_world.clock 0 ≤ micros letter.expires_at
unfolding ◌>>=◌ provision provision_in ownership new_resident new_token active_resident_count
    add_resident resident_refused add_token token_refused log_resident_action log add_log
    log_refused get has hex
newcomer_in_time = omega arith

newcomer_entry : has (housed_world.uuids 0) housed_world.db.audit_logs ≡ false
unfolding ◌>>=◌ provision provision_in ownership new_resident new_token active_resident_count
    add_resident resident_refused add_token token_refused log_resident_action log add_log
    log_refused get has hex
newcomer_entry = refl

provision-register_device_example :
    (register_device letter.token "pem3" housed_world).0 ≡ ok (activated "pem3" newcomer)
provision-register_device_example =
    provision-register_device settings 1 "Cyd" none none (some 8) "pem3" _ housed_world housed_world
      newcomer letter newcomer_housed refl newcomer_in_time newcomer_entry
