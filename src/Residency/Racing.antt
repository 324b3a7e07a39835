-- ===== src/Residency/Racing.antt =====
-- app/services/resident_service.py, provision: the capacity is checked before the rows are written,
-- and nothing keeps it from changing in between.
use vista_authen.Prelude.{
  suc, ◌≡◌, sym, ap, ◌∙◌, String, true, false, Option, some, List, ◌∷◌, arith, ℕ_eq, count, leb,
  if◌then◌else◌,
}
use vista_authen.Models.{Uuid, BuildingUnit, Resident, ActivationToken, Db, pending, status_eq}
use vista_authen.Session.{World, ok, require, query, value_error, unit_not_found, ◌>>=◌}
use vista_authen.Session.Wp.{wp-eq}
use vista_authen.Config.{Settings}
use vista_authen.Rows.{get, unit_keyed}
use vista_authen.Tables.{occupies, active_resident_count}
use vista_authen.Services.Residents.{provision, provision_in, block_registration}
use vista_authen.Residency.Placing.{Placed, provision_in-Places}

occupied :
    (i : Uuid) (r : Resident) (rs : List Resident)
    → occupies i r ≡ true
    → count (occupies i) (r ∷ rs) ≡ suc (count (occupies i) rs)
occupied i r rs h = ground arith

occupies_of : (i : Uuid) (r : Resident) → r.unit_id ≡ i → r.status ≡ pending → occupies i r ≡ true
occupies_of i r home waits = ground arith

module _ (cfg : Settings) (i : Uuid) where
  -- The second half of a provisioning takes one more place, whatever the capacity.
  provision_in-count :
      (name : String) (phone email : Option String) (a : Option Uuid) (w v : World) (r : Resident)
      (t : ActivationToken)
      → provision_in cfg i name phone email a w ≡ (ok (r, t), v)
      → active_resident_count i v.db ≡ suc (active_resident_count i w.db)
  unfolding active_resident_count
  provision_in-count name phone email a w v r t done =
      let p : Placed cfg i name phone email w r t v =
        wp-eq (provision_in-Places cfg i name phone email a w) done in
      let here : occupies i r ≡ true = occupies_of i r p.fresh.home p.fresh.is_pending in
      ap (count (occupies i)) p.residents ∙ occupied i r w.db.residents here

  -- with room, a provisioning is its second half
  provision_in_room :
      (name : String) (phone email : Option String) (a : Option Uuid) (w : World) (u : BuildingUnit)
      → get i w.db.units ≡ some u
      → leb u.max_residents (active_resident_count i w.db) ≡ false
      → provision cfg i name phone email a w ≡ provision_in cfg i name phone email a w
  unfolding provision ◌>>=◌
  provision_in_room name phone email a w u found room =
      ap
        (λ o.
          (require o (value_error (unit_not_found i)) >>= λ unit.
          query (active_resident_count i) >>= λ n.
          if leb unit.max_residents n
          then block_registration a i name unit n
          else provision_in cfg i name phone email a)
            w)
        found
      ∙ ap
          (λ b.
            (if b
                then block_registration a i name u (active_resident_count i w.db)
                else provision_in cfg i name phone email a)
              w)
          room

  -- Two requests for the last place of a unit, where the first writes and commits between the capacity
  -- check of the second and its writes: both checks pass, and if the second returns, the unit has one
  -- resident more than it may.
  pub provision-provision_in :
      (u : BuildingUnit) (w w2 v1 v2 : World) (r1 r2 : Resident) (t1 t2 : ActivationToken)
      (name1 name2 : String) (phone1 email1 phone2 email2 : Option String) (a1 a2 : Option Uuid)
      → get i w.db.units ≡ some u
      → suc (active_resident_count i w.db) ≡ u.max_residents
      → provision cfg i name1 phone1 email1 a1 w ≡ (ok (r1, t1), v1)
      → w2.db ≡ v1.db
      → provision_in cfg i name2 phone2 email2 a2 w2 ≡ (ok (r2, t2), v2)
      → (provision cfg i name2 phone2 email2 a2 w ≡ provision_in cfg i name2 phone2 email2 a2 w)
        × (active_resident_count i v2.db ≡ suc u.max_residents)
  provision-provision_in u w w2 v1 v2 r1 r2 t1 t2 name1 name2 phone1 email1 phone2 email2 a1 a2
        found last first same second =
      let room : leb u.max_residents (active_resident_count i w.db) ≡ false = ground arith in
      let one : provision_in cfg i name1 phone1 email1 a1 w ≡ (ok (r1, t1), v1) =
        sym (provision_in_room name1 phone1 email1 a1 w u found room) ∙ first in
      (
        provision_in_room name2 phone2 email2 a2 w u found room,
        provision_in-count name2 phone2 email2 a2 w2 v2 r2 t2 second
            ∙ ap (λ (d : Db). suc (active_resident_count i d)) same
            ∙ ap suc (provision_in-count name1 phone1 email1 a1 w v1 r1 t1 one)
            ∙ ap suc last,
      )
