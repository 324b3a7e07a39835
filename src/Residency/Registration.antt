-- ===== src/Residency/Registration.antt =====
-- What `provision` has done when it returns.
use vista_authen.Prelude.{ℕ, ◌<◌, ◌≡◌, String, Option, some, leb→lt, String_eq}
use vista_authen.Models.{Uuid, BuildingUnit, Resident, ActivationToken}
use vista_authen.Session.{World, Result, ok, raised}
use vista_authen.Session.Wp.{Wp, wp-raise, wp-query, wp-require, wp-call, wp-if, wp-eq, wp-weaken}
use vista_authen.Config.{Settings}
use vista_authen.Rows.{get, unit_keyed}
use vista_authen.Tables.{active_resident_count}
use vista_authen.Services.Residents.{block_registration, provision}
use vista_authen.Residency.Entries.{log_resident_action-Noted}
use vista_authen.Residency.Placing.{Placed, Places, provision_in-Places}

pub record Registered (cfg : Settings) (i : Uuid) (name : String) (phone email : Option String)
    (w : World) (r : Resident) (t : ActivationToken) (v : World) : Type 0 where
  pub unit : BuildingUnit
  pub found : get i w.db.units ≡ some unit
  pub room : active_resident_count i w.db < unit.max_residents
  pub placed : Placed cfg i name phone email w r t v

module _ (cfg : Settings) (i : Uuid) (name : String) (phone email : Option String)
    (actor_id : Option Uuid) (w : World) where
  abbrev Registers : Result (Resident × ActivationToken) → World → Type 0
  Registers (ok (r, t)) v = Registered cfg i name phone email w r t v
  Registers (raised e) v = Unit

  Places-Registers :
      (u : BuildingUnit)
      → get i w.db.units ≡ some u
      → active_resident_count i w.db < u.max_residents
      → (r : Result (Resident × ActivationToken)) (v : World)
      → Places cfg i name phone email actor_id w r v
      → Registers r v
  Places-Registers u found room (ok (r, t)) v p = record {
    unit = u;
    found = found;
    room = room;
    placed = p;
  }
  Places-Registers u found room (raised e) v p = tt

  block_registration-Registers :
      (u : BuildingUnit) (n : ℕ) → Wp (block_registration actor_id i name u n) w Registers
  unfolding block_registration
  block_registration-Registers u n =
      wp-call _ _ (log_resident_action-Noted _ _ _ _ _ _) (λ l v h. wp-raise _ tt) (λ e v h. tt)

  provision-Registers : Wp (provision cfg i name phone email actor_id) w Registers
  unfolding provision
  provision-Registers = wp-query _ _ (
      wp-require _ _ _
        (λ u found. wp-query _ _ (
          wp-if _ (λ full. block_registration-Registers u _)
            (λ room.
              wp-weaken (provision_in-Places cfg i name phone email actor_id w)
                (Places-Registers u found (leb→lt _ _ room)))))
        (λ absent. tt))

-- A provisioning that returns was of a unit with room. It has added one resident of that unit, pending
-- and without a key, who is the owner, with the contact details given, exactly where the unit had no
-- owner; and one unused token for that resident, with a text of its own, which expires after the configured
-- hours.
pub provision_registers :
    (cfg : Settings) (i : Uuid) (name : String) (phone email : Option String)
    (actor_id : Option Uuid) (w v : World) (r : Resident) (t : ActivationToken)
    → provision cfg i name phone email actor_id w ≡ (ok (r, t), v)
    → Registered cfg i name phone email w r t v
provision_registers cfg i name phone email actor_id w v r t done =
    wp-eq (provision-Registers cfg i name phone email actor_id w) done
