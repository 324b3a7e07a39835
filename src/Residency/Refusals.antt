-- ===== src/Residency/Refusals.antt =====
-- A registration in a unit without room, in the session of its request.
use vista_authen.Prelude.{ℕ, ◌≤◌, ◌≡◌, refl, String, false, Option, some, arith, leb, ◌⊎◌, inl, inr}
use vista_authen.Models.{Uuid, BuildingUnit, Db}
use vista_authen.Session.{
  World, Result, ok, raised, value_error, integrity_error, http, at_capacity,
}
use vista_authen.Session.Wp.{Wp, wp-raise, wp-query, wp-require, wp-call, wp-if}
use vista_authen.Config.{Settings}
use vista_authen.Rows.{get, unit_keyed}
use vista_authen.Tables.{active_resident_count}
use vista_authen.Services.Residents.{provision, block_registration}
use vista_authen.Routes.Http.{with_session, or_bad_request, settle, bad_request}
use vista_authen.Residency.Entries.{log_resident_action-Noted}

-- Refused for want of room, or because the audit entry was refused; what was committed is as before.
abbrev Blocked : {A : Type 0} → BuildingUnit → ℕ → Db → Result A → World → Type 0
Blocked u n d (ok a) v = ⊥
Blocked u n d (raised e) v =
    ((e ≡ value_error (at_capacity u.unit_number n u.max_residents)) ⊎ (e ≡ integrity_error))
    × (v.committed ≡ d)

block_registration-Blocked :
    {A : Type 0} (actor_id : Option Uuid) (i : Uuid) (name : String) (u : BuildingUnit) (n : ℕ)
    (w : World)
    → Wp (block_registration {A = A} actor_id i name u n) w (Blocked u n w.committed)
unfolding block_registration
block_registration-Blocked actor_id i name u n w =
    wp-call _ _ (log_resident_action-Noted _ _ _ _ _ _)
      (λ l v h. wp-raise _ (inl refl, h.committed)) (λ e v h. (inr h.1, h.0.committed))

not_room : (n m : ℕ) → n ≤ m → leb n m ≡ false → ⊥
not_room n m h k = ground arith

module _ (cfg : Settings) (i : Uuid) (name : String) (phone email : Option String)
    (actor_id : Option Uuid) where
  provision-Blocked :
      (w : World) (u : BuildingUnit)
      → get i w.db.units ≡ some u
      → u.max_residents ≤ active_resident_count i w.db
      → Wp
          (provision cfg i name phone email actor_id)
          w
          (Blocked u (active_resident_count i w.db) w.committed)
  unfolding provision
  provision-Blocked w u found full = wp-query _ _ (
      rw found (
        wp-require _ _ _
          (λ t same.
            let e : t ≡ u = ground arith in
            wp-query _ _ (
              wp-if (leb t.max_residents (active_resident_count i w.db))
                (λ taken. rw e (block_registration-Blocked actor_id i name u _ w))
                (λ room. absurd (not_room _ _ full (rw e at room)))))
          (λ absent. absurd (cc))))

-- The request is answered 400, or 500 where the entry was refused, and commits nothing.
abbrev pub Unrecorded : {A : Type 0} → World → Result A → World → Type 0
Unrecorded w (ok a) v = ⊥
Unrecorded w (raised e) v =
    ((e ≡ http 400) ⊎ (e ≡ integrity_error)) × (v.committed ≡ w.committed) × (v.db ≡ w.committed)

settle-Unrecorded :
    {A : Type 0} (u : BuildingUnit) (n : ℕ) (r : Result A) (v w : World)
    → Blocked u n w.committed r v
    → Unrecorded w (settle (bad_request r) v).0 (settle (bad_request r) v).1
unfolding settle
settle-Unrecorded u n (ok a) v w h = absurd h
settle-Unrecorded u n (raised e) v w (inl full, same) = rw full (inl refl, same, same)
settle-Unrecorded u n (raised e) v w (inr refused, same) = rw refused (inr refl, same, same)

-- A provisioning in a unit that holds as many residents as it may is answered 400, or is an integrity
-- error, and its session commits nothing, so the entry `registration_blocked` is not kept either.
pub provision-Unrecorded :
    (cfg : Settings) (i : Uuid) (name : String) (phone email : Option String)
    (actor_id : Option Uuid) (w : World) (u : BuildingUnit)
    → get i w.committed.units ≡ some u
    → u.max_residents ≤ active_resident_count i w.committed
    → Unrecorded w
        (with_session (or_bad_request (provision cfg i name phone email actor_id)) w).0
        (with_session (or_bad_request (provision cfg i name phone email actor_id)) w).1
unfolding with_session or_bad_request
provision-Unrecorded cfg i name phone email actor_id w u found full =
    settle-Unrecorded u _ _ _ w
      (provision-Blocked cfg i name phone email actor_id (record w { db = w.committed }) u found
        full).at
