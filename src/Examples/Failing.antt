-- ===== src/Examples/Failing.antt =====
-- A request of the small building that fails after it has written.
use vista_authen.Prelude.{◌≡◌, refl, none, true, String_eq, leb}
use vista_authen.Config.{settings}
use vista_authen.Session.{◌>>=◌}
use vista_authen.Rows.{unit_keyed, get, has}
use vista_authen.Tables.{active_resident_count, add_log, log_refused}
use vista_authen.Routes.Requests.{Request, handle}
use vista_authen.Routes.Requests as Requests
use vista_authen.Routes.Residents.{provision_resident}
use vista_authen.Routes.Http.{with_session, or_bad_request, settle, uuid_arg, validate}
use vista_authen.Routes.Quiet.Failing.{handle-rolls_back}
use vista_authen.Deps.{get_current_admin, load_admin, uuid_claim, active_admin, require_admin_role}
use vista_authen.Security.{decode_access_token}
use vista_authen.Python.UuidText.{parse_uuid, hex}
use vista_authen.Services.Residents.{provision, block_registration}
use vista_authen.Services.Logging.{log, log_resident_action}
use vista_authen.Examples.{programs, building, morning}

-- a tenant for the unit that is full
abbrev one_too_many : Request
one_too_many =
    Requests.provision_resident "admin token" "00000000000000000000000000000001" "Cyd" none none

one_too_many_refused : leb 400 (handle programs settings one_too_many morning).0 ≡ true
unfolding handle provision_resident with_session settle or_bad_request uuid_arg validate
    require_admin_role get_current_admin decode_access_token load_admin uuid_claim active_admin
    parse_uuid hex provision block_registration log_resident_action log add_log log_refused get has
    active_resident_count ◌>>=◌
one_too_many_refused = refl

handle-rolls_back_example : (handle programs settings one_too_many morning).1.committed ≡ building
handle-rolls_back_example =
    handle-rolls_back programs settings one_too_many morning one_too_many_refused
