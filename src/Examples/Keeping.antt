-- ===== src/Examples/Keeping.antt =====
-- What requests to the small building keep of its tables.
use vista_authen.Prelude.{◌≡◌, refl, [], ◌∷◌, String_eq}
use vista_authen.Config.{settings}
use vista_authen.Routes.Requests.{Request, handle, serve}
use vista_authen.Routes.Requests as Requests
use vista_authen.Routes.Quiet.Sessions.{is_cleanup, is_reading}
use vista_authen.Routes.Quiet.Keeping.{Appends, handle-Appends, handle-only_reads}
use vista_authen.Lifecycle.Uniqueness.{IsDistinct, serve-IsDistinct}
use vista_authen.Session.{World}
use vista_authen.Rows.{resident_keyed, get}
use vista_authen.Services.Residents.{as_revoked}
use vista_authen.Lifecycle.Finality.{Revoked, Opens, serve-Revoked}
use vista_authen.Examples.{programs, building, morning, tenant, owner, code}
use vista_authen.Examples.Serving.{afternoon, building-IsSound}

abbrev registration : Request
registration = Requests.register_device "invitation" "pem"

handle-Appends_example :
    Appends building (handle programs settings registration morning).1.committed
unfolding is_cleanup
handle-Appends_example = handle-Appends programs settings registration morning refl

abbrev listing : Request
listing = Requests.list_units "admin token"

handle-only_reads_example : (handle programs settings listing morning).1.committed ≡ building
unfolding is_reading
handle-only_reads_example = handle-only_reads programs settings listing morning refl

building-IsDistinct : IsDistinct building
building-IsDistinct = record {
  unit_numbers = (refl, tt);
  checker_names = (refl, tt);
  admin_names = (refl, tt);
  token_texts = (refl, tt);
  token_holders = (refl, tt);
}

serve-IsDistinct_example : IsDistinct (serve programs settings afternoon morning).committed
serve-IsDistinct_example =
    serve-IsDistinct programs settings afternoon morning building-IsSound building-IsDistinct

-- The owner's device has been revoked.
abbrev turned_out : World
turned_out = record morning {
  committed = record building { residents = tenant ∷ as_revoked 0 owner ∷ [] };
}

owner_Revoked : Revoked 6 turned_out.committed.residents
unfolding get
owner_Revoked = (as_revoked 0 owner, refl, refl)

serve-Revoked_example :
    Revoked 6 (serve programs settings afternoon turned_out).committed.residents
    × ¬ Opens programs settings (serve programs settings afternoon turned_out).committed 0 code 6
serve-Revoked_example = serve-Revoked programs settings 6 afternoon turned_out 0 code owner_Revoked
