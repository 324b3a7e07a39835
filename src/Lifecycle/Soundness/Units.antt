-- ===== src/Lifecycle/Soundness/Units.antt =====
-- The changes of units keep the invariant.
use vista_authen.Prelude.{
  ◌≤◌, ◌≡◌, false, some, ◌∷◌, arith, ◌==◌, ℕ_eq, count, All-map, All-zip, All-any, count_of_All,
}
use vista_authen.Models.{Uuid, BuildingUnit, Db, status_eq}
use vista_authen.Rows.{
  get, has, put, without, get-put, has-put, get-without, has-without, put-UniqueKeys,
  without-UniqueKeys, unit_keyed, resident_keyed, token_keyed,
}
use vista_authen.Tables.{occupies, active_resident_count, unit_taken, unit_referred}
use vista_authen.Lifecycle.Invariant.{IsSound}

module _ {d : Db} (s : IsSound d) where
  -- a unit with a new key has no residents yet
  new_unit_empty : (i : Uuid) → has i d.units ≡ false → count (occupies i) d.residents ≡ 0
  new_unit_empty i fresh =
      count_of_All _ _
        (All-map _ _ (λ r home. ground (arith, (ℕ_eq.decides r.unit_id i).0)) d.residents s.homes)

  pub unit_added-IsSound :
      (u : BuildingUnit) → unit_taken d u ≡ false → IsSound (record d { units = u ∷ d.units })
  unfolding unit_taken has get active_resident_count
  unit_added-IsSound u fresh = record {
    unit_ids = (ground arith, s.unit_ids);
    resident_ids = s.resident_ids;
    token_ids = s.token_ids;
    homes = All-map _ _ (λ r home. ground arith) d.residents s.homes;
    holders = s.holders;
    room = λ i v found. ground (arith, new_unit_empty i, s.room i v, (ℕ_eq.decides u.id i).0);
    one_owner = s.one_owner;
    residents_WellFormed = s.residents_WellFormed;
  }

  pub unit_changed-IsSound :
      (old u : BuildingUnit)
      → get u.id d.units ≡ some old
      → active_resident_count u.id d ≤ u.max_residents
      → IsSound (record d { units = put u d.units })
  unfolding active_resident_count
  unit_changed-IsSound old u found fits = record {
    unit_ids = put-UniqueKeys u d.units s.unit_ids;
    resident_ids = s.resident_ids;
    token_ids = s.token_ids;
    homes = All-map _ _ (λ r home. rw has-put home) d.residents s.homes;
    holders = s.holders;
    room = λ i v e. ground (arith, get-put i u d.units, s.room i v, (ℕ_eq.decides u.id i).0);
    one_owner = s.one_owner;
    residents_WellFormed = s.residents_WellFormed;
  }

  pub unit_deleted-IsSound :
      (i : Uuid) → unit_referred d i ≡ false → IsSound (record d { units = without i d.units })
  unfolding unit_referred active_resident_count
  unit_deleted-IsSound i free = record {
    unit_ids = without-UniqueKeys i d.units s.unit_ids;
    resident_ids = s.resident_ids;
    token_ids = s.token_ids;
    homes =
        All-zip _ _ _ (λ r home away. rw has-without (ground arith)) d.residents s.homes
          (All-any (λ r. r.unit_id == i) d.residents (ground arith));
    holders = s.holders;
    room = λ j v found. ground (arith, get-without i j d.units, s.room j v);
    one_owner = s.one_owner;
    residents_WellFormed = s.residents_WellFormed;
  }
