-- ===== src/Lifecycle/Capacity.antt =====
-- `UnitService` makes only changes that the specification allows.
use vista_authen.Prelude.{
  sym, subst, ℕ, ◌≤◌, ◌≡◌, refl, String, false, Option, none, some, arith, ltb,
}
use vista_authen.Models.{Uuid, Db, BuildingUnit}
use vista_authen.Session.{World}
use vista_authen.Session.Wp.{
  Wp, wp-pure, wp-query, wp-raise_if, wp-modify, wp-modify_last, wp-uuid4, wp-server_now, wp-call,
}
use vista_authen.Rows.{get, get-key, key-get, unit_keyed}
use vista_authen.Tables.{add_unit, active_resident_count}
use vista_authen.Services.Units
use vista_authen.Services.Units.{update_capacity_of, update_capacity, delete_of, delete}
use vista_authen.Lifecycle.{unit_added, unit_changed, unit_deleted}
use vista_authen.Lifecycle.Logs.{At, step, Reaches}

not_below : (n m : ℕ) → ltb n m ≡ false → m ≤ n
not_below n m h = ground arith

module _ {d : Db} {w : World} (so_far : At d w) where
  add_unit-Reach : (u : BuildingUnit) → Wp (add_unit u) w (Reaches d)
  unfolding add_unit
  add_unit-Reach u = wp-query _ _ (
      wp-raise_if _ _ _ (λ accepted. wp-modify_last _ (step so_far (unit_added u accepted)))
        (λ taken. so_far))

  update_capacity_of-Reach :
      (o : Option BuildingUnit) (i : Uuid) (n : ℕ)
      → get i w.db.units ≡ o
      → Wp (update_capacity_of o i n) w (Reaches d)
  unfolding update_capacity_of
  update_capacity_of-Reach none i n e = wp-pure _ so_far
  update_capacity_of-Reach (some u) i n e = wp-query _ _ (
      wp-raise_if _ _ _
        (λ room. wp-server_now _ (
          wp-modify _ _ (
            wp-pure _ (
              step so_far (
                unit_changed u _ (get-key i w.db.units e) refl (
                  subst (λ j. active_resident_count j w.db ≤ n) (sym (key-get i w.db.units e))
                    (not_below n _ room)))))))
        (λ full. so_far))

  delete_of-Reach :
      (o : Option BuildingUnit) (i : Uuid) → get i w.db.units ≡ o → Wp (delete_of o i) w (Reaches d)
  unfolding delete_of
  delete_of-Reach none i e = wp-pure _ so_far
  delete_of-Reach (some u) i e = wp-query _ _ (
      wp-raise_if _ _ _
        (λ vacant. wp-query _ _ (
          wp-raise_if _ _ _
            (λ unreferred. wp-modify _ _ (wp-pure _ (step so_far (unit_deleted i unreferred))))
            (λ referred. so_far)))
        (λ occupied. so_far))

module _ {d : Db} {w : World} (so_far : At d w) where
  pub create-Reach : (number : String) (n : ℕ) → Wp (Units.create number n) w (Reaches d)
  unfolding Units.create
  create-Reach number n =
      wp-uuid4 _ (
        wp-server_now _ (wp-call _ _ (add_unit-Reach so_far _) (λ a v h. wp-pure _ h) (λ e v h. h)))

  pub update_capacity-Reach : (i : Uuid) (n : ℕ) → Wp (update_capacity i n) w (Reaches d)
  unfolding update_capacity
  update_capacity-Reach i n =
      wp-query _ _ (update_capacity_of-Reach so_far (get i w.db.units) i n refl)

  pub delete-Reach : (i : Uuid) → Wp (delete i) w (Reaches d)
  unfolding delete
  delete-Reach i = wp-query _ _ (delete_of-Reach so_far (get i w.db.units) i refl)
