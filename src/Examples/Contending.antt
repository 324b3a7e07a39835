-- ===== src/Examples/Contending.antt =====
-- Two devices with the tenant's invitation in the small building.
use vista_authen.Prelude.{◌≡◌, refl, some, arith}
use vista_authen.Session.{World, ok, ◌>>=◌}
use vista_authen.Rows.{get, has, put, resident_keyed, unit_keyed, audit_log_keyed}
use vista_authen.Tables.{add_log, log_refused, scalar_one_or_none}
use vista_authen.Services.Logging.{log, log_resident_action}
use vista_authen.Services.Residents.{
  activated, find_token, check_token, bind_device, register_device,
}
use vista_authen.Residency.Accepting.{IsReady}
use vista_authen.Residency.Contending.{ticked, register_device-bind_device}
use vista_authen.Examples.{tenant, invitation, morning}
use vista_authen.Examples.Residency.{registered_world, tenant_registered}

invitation-IsReady : IsReady "invitation" morning invitation tenant
unfolding get has
invitation-IsReady = record {
  only = refl;
  unused = refl;
  in_time = ground arith;
  holder = refl;
  is_pending = refl;
  fresh_entry = refl;
  home = refl;
}

abbrev taken_over : World
taken_over = (bind_device invitation tenant "pem3" registered_world).1

second_bound :
    bind_device invitation tenant "pem3" registered_world
    ≡ (ok (activated "pem3" tenant), taken_over)
unfolding ◌>>=◌ register_device find_token check_token bind_device log_resident_action log add_log
    log_refused get has put scalar_one_or_none
second_bound = refl

register_device-bind_device_example :
    (register_device "invitation" "pem3" morning
      ≡ bind_device invitation tenant "pem3" (ticked morning))
    × ((activated "pem2" tenant).public_key ≡ some "pem2")
    × (get 5 taken_over.db.residents ≡ some (activated "pem3" tenant))
register_device-bind_device_example =
    register_device-bind_device "invitation" "pem2" "pem3" morning registered_world registered_world
      taken_over invitation tenant (activated "pem2" tenant) (activated "pem3" tenant)
      invitation-IsReady tenant_registered refl second_bound
