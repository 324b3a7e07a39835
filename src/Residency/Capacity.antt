-- ===== src/Residency/Capacity.antt =====
-- How a change of a unit's capacity and the deletion of a unit end.
use vista_authen.Prelude.{
  ℕ, ◌≤◌, ◌<◌, ◌≡◌, refl, Bool, true, false, Option, some, none, arith, ltb, ◌==◌, ap, ℕ_eq, ◌⊎◌,
  inl, inr, any, Member, any_at, any-Member, Bool-cases,
}
use vista_authen.Models.{Uuid, BuildingUnit, Resident, AuditLog, Db}
use vista_authen.Session.{
  World, Result, ok, raised, value_error, integrity_error, capacity_below_count, residents_assigned,
}
use vista_authen.Session.Wp.{Wp, wp-pure, wp-query, wp-raise_if, wp-modify, wp-server_now}
use vista_authen.Rows.{get, put, without, unit_keyed}
use vista_authen.Tables.{active_resident_count, lives_in, logged_for, unit_referred}
use vista_authen.Services.Units.{
  with_capacity, update_capacity, update_capacity_of, delete, delete_of,
}

-- The capacity is written where the residents fit, and refused where they do not.
abbrev pub Resizes : Uuid → ℕ → World → Result (Option BuildingUnit) → World → Type 0
Resizes i n w (ok none) v = (get i w.db.units ≡ none) × (v ≡ w)
Resizes i n w (ok (some u)) v =
    (old : BuildingUnit) × (get i w.db.units ≡ some old)
    × (u ≡ with_capacity n w.db_now old)
    × (active_resident_count i w.db ≤ n)
    × (v ≡ record w { db = record w.db { units = put u w.db.units } })
Resizes i n w (raised e) v =
    (e ≡ value_error (capacity_below_count n (active_resident_count i w.db)))
    × (n < active_resident_count i w.db)
    × (v ≡ w)

fits : (n m : ℕ) → ltb n m ≡ false → m ≤ n
fits n m h = ground arith

below : (n m : ℕ) → ltb n m ≡ true → n < m
below n m h = ground arith

update_capacity_of-Resizes :
    (i : Uuid) (n : ℕ) (w : World) (o : Option BuildingUnit)
    → get i w.db.units ≡ o
    → Wp (update_capacity_of o i n) w (Resizes i n w)
unfolding update_capacity_of
update_capacity_of-Resizes i n w none e = wp-pure _ (e, refl)
update_capacity_of-Resizes i n w (some u) e = wp-query _ _ (
    wp-raise_if _ _ _
      (λ room. wp-server_now _ (wp-modify _ _ (wp-pure _ (u, e, refl, fits n _ room, refl))))
      (λ full. (refl, below n _ full, refl)))

update_capacity-Resizes :
    (i : Uuid) (n : ℕ) (w : World) → Wp (update_capacity i n) w (Resizes i n w)
unfolding update_capacity
update_capacity-Resizes i n w =
    wp-query _ _ (update_capacity_of-Resizes i n w (get i w.db.units) refl)

-- A change of capacity writes the new capacity to the unit of that id, if there is one, and to
-- nothing else; it is refused, with nothing changed, only where more residents than that count.
pub update_capacity_lem :
    (i : Uuid) (n : ℕ) (w : World)
    → Resizes i n w (update_capacity i n w).0 (update_capacity i n w).1
update_capacity_lem i n w = (update_capacity-Resizes i n w).at

-- What refers to a unit: a resident of whatever status, or an audit entry.
abbrev Refers : Uuid → Db → Type 0
Refers i d =
    ((r : Resident) × Member r d.residents × (r.unit_id ≡ i))
    ⊎ ((l : AuditLog) × Member l d.audit_logs × (l.unit_id ≡ some i))

-- A unit goes only where no resident, not even a revoked one, and no audit entry refers to it.
abbrev pub Deletes : Uuid → World → Result Bool → World → Type 0
Deletes i w (ok false) v = (get i w.db.units ≡ none) × (v ≡ w)
Deletes i w (ok true) v =
    (u : BuildingUnit) × (get i w.db.units ≡ some u)
    × (¬ Refers i w.db)
    × (v ≡ record w { db = record w.db { units = without i w.db.units } })
Deletes i w (raised e) v =
    (((e ≡ value_error (residents_assigned (active_resident_count i w.db)))
        × (0 < active_resident_count i w.db))
      ⊎ ((e ≡ integrity_error) × (active_resident_count i w.db ≡ 0) × Refers i w.db))
    × (v ≡ w)

logged_for_lem : (i : Uuid) (l : AuditLog) → logged_for i l ≡ true → l.unit_id ≡ some i
logged_for_lem i l h = of_unit l.unit_id h
  where
    of_unit : (o : Option Uuid) → elim o [ none ↦ false | some j ↦ j == i ] ≡ true → o ≡ some i
    of_unit none h = absurd (cc)
    of_unit (some j) h = ap some (ground arith)

for_its_unit : (i : Uuid) (l : AuditLog) → l.unit_id ≡ some i → logged_for i l ≡ true
for_its_unit i l e = rw e (ground arith)

unreferred : (i : Uuid) (d : Db) → unit_referred d i ≡ false → ¬ Refers i d
unfolding unit_referred
unreferred i d h (inl (r, here, e)) =
    let hit : any (lives_in i) d.residents ≡ true =
      any_at (lives_in i) r d.residents here (ground (arith, e)) in
    ground arith
unreferred i d h (inr (l, here, e)) =
    let hit : any (logged_for i) d.audit_logs ≡ true =
      any_at (logged_for i) l d.audit_logs here (for_its_unit i l e) in
    ground arith

referred-Refers : (i : Uuid) (d : Db) → unit_referred d i ≡ true → Refers i d
unfolding unit_referred
referred-Refers i d h = elim (Bool-cases (any (lives_in i) d.residents)) [
  | inl lived ↦
      let (r, here, hit) = any-Member (lives_in i) d.residents lived in inl (r, here, ground arith)
  | inr empty ↦
      let (l, here, hit) = any-Member (logged_for i) d.audit_logs (ground arith) in
      inr (l, here, logged_for_lem i l hit)
]

nobody : (n : ℕ) → ltb 0 n ≡ false → n ≡ 0
nobody n h = ground arith

delete_of-Deletes :
    (i : Uuid) (w : World) (o : Option BuildingUnit)
    → get i w.db.units ≡ o
    → Wp (delete_of o i) w (Deletes i w)
unfolding delete_of
delete_of-Deletes i w none e = wp-pure _ (e, refl)
delete_of-Deletes i w (some u) e = wp-query _ _ (
    wp-raise_if _ _ _
      (λ vacant. wp-query _ _ (
        wp-raise_if _ _ _ (λ free. wp-modify _ _ (wp-pure _ (u, e, unreferred i w.db free, refl)))
          (λ referred. (inr (refl, nobody _ vacant, referred-Refers i w.db referred), refl))))
      (λ occupied. (inl (refl, below 0 _ occupied), refl)))

delete-Deletes : (i : Uuid) (w : World) → Wp (delete i) w (Deletes i w)
unfolding delete
delete-Deletes i w = wp-query _ _ (delete_of-Deletes i w (get i w.db.units) refl)

-- Deleting a unit that is there removes it, and changes nothing else, only where no resident of any
-- status and no audit entry refers to it; where residents that are not revoked are left it is refused
-- with their number, and where there are none of these but a resident or an audit entry refers to it,
-- the database refuses it.
pub delete_lem : (i : Uuid) (w : World) → Deletes i w (delete i w).0 (delete i w).1
delete_lem i w = (delete-Deletes i w).at
