-- ===== src/Examples/Serving.antt =====
-- Requests to the server of the small building.
use vista_authen.Prelude.{refl, none, List, [], ◌∷◌, arith, String_eq}
use vista_authen.Config.{settings}
use vista_authen.Rows.{unit_keyed, get, has}
use vista_authen.Tables.{active_resident_count}
use vista_authen.Lifecycle.Invariant.{IsSound}
use vista_authen.Lifecycle.{Reach}
use vista_authen.Lifecycle.Serving.{serve-Reach, serve-IsSound}
use vista_authen.Routes.Requests.{Event, request, tick, serve}
use vista_authen.Routes.Requests as Requests
use vista_authen.Examples.{programs, building, morning}

pub building-IsSound : IsSound building
unfolding has get active_resident_count
building-IsSound = record {
  unit_ids = (refl, tt);
  resident_ids = (refl, (refl, tt));
  token_ids = (refl, tt);
  homes = (refl, (refl, tt));
  holders = (refl, tt);
  room = λ i u h. ground arith;
  one_owner = λ i. ground arith;
  residents_WellFormed = (
    record {
      active_key = λ h. absurd (cc);
      other_key = λ h. refl;
      other_contact = λ h. (refl, refl);
      owner_contact = λ h. absurd (cc);
    },
    (
      record {
        active_key = λ h. ("pem", refl);
        other_key = λ h. absurd (h refl);
        other_contact = λ h. absurd (cc);
        owner_contact = λ h. ("1", "a", refl, refl, refl, refl);
      },
      tt,
    ),
  );
}

-- A request to add a tenant, a registration, a scan and a round of the clean-up.
abbrev pub afternoon : List Event
afternoon =
    request
      (Requests.provision_resident "admin token" "00000000000000000000000000000001" "Cyd" none none)
    ∷ request (Requests.register_device "invitation" "pem")
    ∷ tick
    ∷ []

serve-IsSound_example : IsSound (serve programs settings afternoon morning).committed
serve-IsSound_example = serve-IsSound programs settings afternoon morning building-IsSound

serve-Reach_example : Reach building (serve programs settings afternoon morning).committed
serve-Reach_example = serve-Reach programs settings afternoon morning
