-- ===== src/Routes/Units.antt =====
-- app/routes/units.py
use vista_authen.Prelude.{ℕ, String, List, [], ◌∷◌, map, ◌==◌, ℕ_eq, count, not}
use vista_authen.Models.{DateTime, Uuid, BuildingUnit, Db, setup_admin, resident_admin}
use vista_authen.Session.{M, pure, lift, query, raise_if, http, ◌>>=◌, ◌>>◌}
use vista_authen.Config.{Settings}
use vista_authen.Externals.{Externals}
use vista_authen.Deps.{require_admin_role}
use vista_authen.Rows.{unit_keyed}
use vista_authen.Services.Units
use vista_authen.Python.UuidText.{str_uuid}
use vista_authen.Routes.Bodies.{fits_unit_create, fits_unit_update}
use vista_authen.Routes.Http.{validate, or_bad_request, or_not_found, uuid_arg}

-- UnitRead
pub record UnitRead : Type 0 where
  pub id : String
  pub unit_number : String
  pub max_residents : ℕ
  pub current_resident_count : ℕ
  pub created_at : DateTime
  pub updated_at : DateTime

-- `len(unit.residents)`: every resident of the unit, also a revoked one
unfoldable pub resident_count : Uuid → Db → ℕ
resident_count i d = count (λ r. r.unit_id == i) d.residents

abbrev pub read_unit : ℕ → BuildingUnit → UnitRead
read_unit current_resident_count u = record {
  id = str_uuid u.id;
  unit_number = u.unit_number;
  max_residents = u.max_residents;
  current_resident_count = current_resident_count;
  created_at = u.created_at;
  updated_at = u.updated_at;
}

abbrev pub read_with_residents : Db → BuildingUnit → UnitRead
read_with_residents d u = read_unit (resident_count u.id d) u

module _ (x : Externals) (cfg : Settings) where
  unfoldable pub create_unit : String → String → ℕ → M UnitRead
  create_unit credentials unit_number max_residents = do
    require_admin_role x cfg (setup_admin ∷ []) credentials
    validate (fits_unit_create unit_number max_residents)
    unit ← Units.create unit_number max_residents
    pure (read_unit 0 unit)

  unfoldable pub list_units : String → M (List UnitRead)
  list_units credentials = do
    require_admin_role x cfg (setup_admin ∷ resident_admin ∷ []) credentials
    units ← Units.list_all x.collate
    query (λ d. map (read_with_residents d) units)

  unfoldable pub get_unit : String → String → M UnitRead
  get_unit credentials unit_id = do
    require_admin_role x cfg (setup_admin ∷ resident_admin ∷ []) credentials
    id ← uuid_arg unit_id
    row ← Units.get_by_id id
    unit ← or_not_found row
    query (λ d. read_with_residents d unit)

  unfoldable pub update_unit_capacity : String → String → ℕ → M UnitRead
  update_unit_capacity credentials unit_id max_residents = do
    require_admin_role x cfg (setup_admin ∷ []) credentials
    validate (fits_unit_update max_residents)
    row ← or_bad_request (do id ← uuid_arg unit_id; Units.update_capacity id max_residents)
    unit ← or_not_found row
    updated_at ← lift (x.reload_updated_at unit)
    query (λ d. read_with_residents d (record unit { updated_at = updated_at }))

  unfoldable pub delete_unit : String → String → M (Unit {0})
  delete_unit credentials unit_id = do
    require_admin_role x cfg (setup_admin ∷ []) credentials
    deleted ← or_bad_request (do id ← uuid_arg unit_id; Units.delete id)
    raise_if (not deleted) (http 404)
