-- ===== src/Services/Units.antt =====
-- app/services/unit_service.py
use vista_authen.Prelude.{
  ℕ, String, Bool, true, false, Option, none, some, List, ◌==◌, ℕ_eq, ltb, if◌then◌else◌,
}
use vista_authen.Prelude.Sorting.{sort_by}
use vista_authen.Models.{Uuid, BuildingUnit, DateTime}
use vista_authen.Session.{
  M, pure, query, modify, raise_if, uuid4, server_now, ◌>>=◌, ◌>>◌, value_error,
  capacity_below_count, residents_assigned, integrity_error,
}
use vista_authen.Rows.{get, put, without, unit_keyed}
use vista_authen.Tables.{add_unit, active_resident_count, unit_referred}

-- UnitService.create
unfoldable pub create : String → ℕ → M BuildingUnit
create unit_number max_residents = do
  id ← uuid4
  now ← server_now
  let unit : BuildingUnit = record {
    id = id;
    unit_number = unit_number;
    max_residents = max_residents;
    created_at = now;
    updated_at = now;
  }
  add_unit unit
  pure unit

-- The flush writes the row, and `onupdate` its time, only where the attribute has changed.
abbrev pub with_capacity : ℕ → DateTime → BuildingUnit → BuildingUnit
with_capacity n now unit = record unit {
  max_residents = n;
  updated_at = if unit.max_residents == n then unit.updated_at else now;
}

unfoldable pub update_capacity_of : Option BuildingUnit → Uuid → ℕ → M (Option BuildingUnit)
update_capacity_of none unit_id max_residents = pure none
update_capacity_of (some unit) unit_id max_residents = do
  active_count ← query (active_resident_count unit_id)
  raise_if (ltb max_residents active_count)
      (value_error (capacity_below_count max_residents active_count))
  now ← server_now
  modify (λ d. record d { units = put (with_capacity max_residents now unit) d.units })
  pure (some (with_capacity max_residents now unit))

-- UnitService.update_capacity
unfoldable pub update_capacity : Uuid → ℕ → M (Option BuildingUnit)
update_capacity unit_id max_residents = do
  unit ← query (λ d. get unit_id d.units)
  update_capacity_of unit unit_id max_residents

unfoldable pub delete_of : Option BuildingUnit → Uuid → M Bool
delete_of none unit_id = pure false
delete_of (some unit) unit_id = do
  active_count ← query (active_resident_count unit_id)
  raise_if (ltb 0 active_count) (value_error (residents_assigned active_count))
  referred ← query (λ d. unit_referred d unit_id)
  raise_if referred integrity_error
  modify (λ d. record d { units = without unit_id d.units })
  pure true

-- UnitService.delete
unfoldable pub delete : Uuid → M Bool
delete unit_id = do unit ← query (λ d. get unit_id d.units); delete_of unit unit_id

-- UnitService.get
unfoldable pub get_by_id : Uuid → M (Option BuildingUnit)
get_by_id unit_id = query (λ d. get unit_id d.units)

-- UnitService.list_all, for the database's order of texts
unfoldable pub list_all : (String → String → Bool) → M (List BuildingUnit)
list_all collate = query λ d. sort_by (λ a b. collate a.unit_number b.unit_number) d.units
