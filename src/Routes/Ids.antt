-- ===== src/Routes/Ids.antt =====
-- The ids that the API hands out are the ids that it takes back.
use vista_authen.Prelude.{ℕ, ◌≡◌, refl, ap, ◌<◌, ◌^◌, String, some}
use vista_authen.Models.{Uuid, BuildingUnit, Resident, Checker, Json}
use vista_authen.Session.{World, ok, require, value_error, bad_uuid}
use vista_authen.Security.{lookup}
use vista_authen.Deps.{uuid_claim}
use vista_authen.Python.UuidText.{str_uuid}
use vista_authen.Python.RoundTrip.{parse_uuid-str_uuid}
use vista_authen.Routes.Http.{uuid_arg}
use vista_authen.Routes.Units.{read_unit}
use vista_authen.Routes.Residents.{map_resident}
use vista_authen.Routes.Staff.{read_checker, claims}

uuid_arg-str_uuid : (i : Uuid) (w : World) → i < 2 ^ 128 → uuid_arg (str_uuid i) w ≡ (ok i, w)
unfolding uuid_arg require
uuid_arg-str_uuid i w small =
    ap (λ o. require o (value_error bad_uuid) w) (parse_uuid-str_uuid i small)

uuid_claim-str_uuid :
    (i : Uuid) (w : World) → i < 2 ^ 128 → uuid_claim (Json.text (str_uuid i)) w ≡ (ok i, w)
unfolding uuid_claim require
uuid_claim-str_uuid i w small =
    ap (λ o. require o (value_error bad_uuid) w) (parse_uuid-str_uuid i small)

-- An id of 128 bits comes back as it went out: the id of a unit, a resident or a checker in an answer,
-- read as the id of a request, is the id of the row; so is the unit of a resident; and so is the
-- subject of an access token.
pub ids_return :
    (u : BuildingUnit) (r : Resident) (c : Checker) (n : ℕ) (role kind : String) (w : World)
    → u.id < 2 ^ 128
    → r.id < 2 ^ 128
    → r.unit_id < 2 ^ 128
    → c.id < 2 ^ 128
    → (uuid_arg (read_unit n u).id w ≡ (ok u.id, w))
      × (uuid_arg (map_resident r).id w ≡ (ok r.id, w))
      × (uuid_arg (map_resident r).unit_id w ≡ (ok r.unit_id, w))
      × (uuid_arg (read_checker c).id w ≡ (ok c.id, w))
      × ((sub : Json) × (lookup "sub" (claims c.id role kind) ≡ some sub)
          × (uuid_claim sub w ≡ (ok c.id, w)))
ids_return u r c n role kind w unit resident home checker = (
  uuid_arg-str_uuid u.id w unit,
  uuid_arg-str_uuid r.id w resident,
  uuid_arg-str_uuid r.unit_id w home,
  uuid_arg-str_uuid c.id w checker,
  (_, refl, uuid_claim-str_uuid c.id w checker),
)
