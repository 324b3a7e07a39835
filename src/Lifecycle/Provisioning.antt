-- ===== src/Lifecycle/Provisioning.antt =====
-- `ResidentService.provision` makes only changes that the specification allows.
use vista_authen.Prelude.{
  ◌<◌, ◌≡◌, refl, ◌∙◌, String, Bool, true, false, Option, none, some, arith, leb→lt, find,
}
use vista_authen.Models.{Uuid, Db, BuildingUnit, Resident, ActivationToken}
use vista_authen.Session.{World, Result, ok, raised}
use vista_authen.Session.Wp.{
  Wp, wp-pure, wp-raise, wp-query, wp-require, wp-raise_if, wp-modify_last, wp-uuid4, wp-server_now,
  wp-utcnow, wp-call, wp-if,
}
use vista_authen.Config.{Settings}
use vista_authen.Rows.{get, unit_keyed}
use vista_authen.Tables.{add_resident, add_token, resident_refused, active_resident_count}
use vista_authen.Python.Strings.{is_blank, strip, truthy}
use vista_authen.Services.Residents.{
  owns, contact, missing, ownership, new_resident, new_token, block_registration, provision_in,
  provision,
}
use vista_authen.Lifecycle.{HasContact, Admissible, resident_added, token_added}
use vista_authen.Lifecycle.Logs.{At, step, Reaches, log_resident_action-Reach}

block_registration-Reach :
    {A : Type 0} {d : Db} {w : World} (so_far : At d w) (actor_id : Option Uuid) (unit_id : Uuid)
    (name : String) (unit : BuildingUnit) (n : _)
    → Wp (block_registration {A = A} actor_id unit_id name unit n) w (Reaches d)
unfolding block_registration
block_registration-Reach so_far actor_id unit_id name unit n =
    wp-call _ _ (log_resident_action-Reach so_far _ _ _ _ _) (λ a v h. wp-raise _ h) (λ e v h. h)

-- What `ownership` has settled when it returns: it has changed nothing.
record Settled (owner : Option Resident) (phone email : Option String) (is_owner : Bool)
    : Type 0 where
  first_owner : is_owner ≡ true → owner ≡ none
  owner_contact : is_owner ≡ true → (missing phone ≡ false) × (missing email ≡ false)
  no_contact : is_owner ≡ false → (truthy phone ≡ false) × (truthy email ≡ false)

abbrev Settles :
    World → Option Resident → Option String → Option String → Result Bool → World → Type 0
Settles w owner phone email (ok is_owner) v = (v ≡ w) × Settled owner phone email is_owner
Settles w owner phone email (raised e) v = v ≡ w

ownership-Settles :
    (w : World) (owner : Option Resident) (phone email : Option String)
    → Wp (ownership owner phone email) w (Settles w owner phone email)
unfolding ownership
ownership-Settles w none phone email =
    wp-raise_if _ _ _
      (λ given. wp-pure _ (
        refl,
        record { first_owner = λ h. refl; owner_contact = λ h. ground arith; no_contact = λ h. cc },
      ))
      (λ h. refl)
ownership-Settles w (some owner) phone email =
    wp-raise_if _ _ _
      (λ absent. wp-pure _ (
        refl,
        record { first_owner = λ h. cc; owner_contact = λ h. cc; no_contact = λ h. ground arith },
      ))
      (λ h. refl)

-- A text that is not missing is kept, stripped; one that is not true is dropped.
contact_of_owner :
    (s : Option String)
    → missing s ≡ false
    → (t : String) × (contact true s ≡ some (strip t)) × (is_blank t ≡ false)
contact_of_owner none h = cc
contact_of_owner (some s) h = (s, ground arith, ground arith)

contact_of_other : (s : Option String) → contact false s ≡ none
contact_of_other none = refl
contact_of_other (some s) = refl

contact-HasContact :
    (r : Resident) (owner : Option Resident) (phone email : Option String)
    → Settled owner phone email r.is_owner
    → r.phone ≡ contact r.is_owner phone
    → r.email ≡ contact r.is_owner email
    → HasContact r
contact-HasContact r owner phone email settled ep ee = record {
  owner = λ own.
      let (p, hp, bp) = contact_of_owner phone (settled.owner_contact own).0 in
      let (e, he, be) = contact_of_owner email (settled.owner_contact own).1 in
      (p, e, ep ∙ rw own hp, ee ∙ rw own he, bp, be);
  other = λ not_own.
      (ep ∙ rw not_own (contact_of_other phone), ee ∙ rw not_own (contact_of_other email));
}

add_resident-Reach :
    {d : Db} {w : World} (so_far : At d w) (r : Resident)
    → (resident_refused w.db r ≡ false → Admissible w.db r)
    → Wp (add_resident r) w (Reaches d)
unfolding add_resident
add_resident-Reach so_far r admissible = wp-query _ _ (
    wp-raise_if _ _ _
      (λ accepted. wp-modify_last _ (step so_far (resident_added r (admissible accepted))))
      (λ refused. so_far))

add_token-Reach :
    {d : Db} {w : World} (so_far : At d w) (t : ActivationToken)
    → t.used_at ≡ none
    → Wp (add_token t) w (Reaches d)
unfolding add_token
add_token-Reach so_far t unused = wp-query _ _ (
    wp-raise_if _ _ _ (λ accepted. wp-modify_last _ (step so_far (token_added t accepted unused)))
      (λ refused. so_far))

new_resident-Reach :
    {d : Db} {w : World} (so_far : At d w) (unit_id : Uuid) (name : String)
    (phone email : Option String) (is_owner : Bool) (u : BuildingUnit)
    → get unit_id w.db.units ≡ some u
    → active_resident_count unit_id w.db < u.max_residents
    → Settled (find (owns unit_id) w.db.residents) phone email is_owner
    → Wp (new_resident unit_id name phone email is_owner) w (Reaches d)
unfolding new_resident
new_resident-Reach so_far unit_id name phone email is_owner u found room settled = wp-uuid4 _ (
    wp-server_now _ (
      wp-call _ _
        (add_resident-Reach so_far _ (λ accepted. record {
          home = (u, found, room);
          accepted = accepted;
          fresh = (refl, refl);
          first_owner = settled.first_owner;
          contact = contact-HasContact _ _ phone email settled refl refl;
        }))
        (λ a v h. wp-pure _ h) (λ e v h. h)))

new_token-Reach :
    {d : Db} {w : World} (so_far : At d w) (cfg : Settings) (resident_id : Uuid)
    → Wp (new_token cfg resident_id) w (Reaches d)
unfolding new_token
new_token-Reach so_far cfg resident_id = wp-uuid4 _ (
    wp-utcnow _ (
      wp-uuid4 _ (wp-call _ _ (add_token-Reach so_far _ refl) (λ a v h. wp-pure _ h) (λ e v h. h))))

module _ {d : Db} {w : World} (so_far : At d w) (cfg : Settings) (unit_id : Uuid) (name : String)
    (phone email : Option String) (actor_id : Option Uuid) where
  provision_in-Reach :
      (u : BuildingUnit)
      → get unit_id w.db.units ≡ some u
      → active_resident_count unit_id w.db < u.max_residents
      → Wp (provision_in cfg unit_id name phone email actor_id) w (Reaches d)
  unfolding provision_in
  provision_in-Reach u found room = wp-query _ _ (
      wp-call _ _ (ownership-Settles w _ phone email)
        (λ is_owner v settled. rw settled.0 (
          wp-call _ _
            (new_resident-Reach so_far unit_id name phone email is_owner u found room settled.1)
            (λ resident v1 h1.
              wp-call _ _ (new_token-Reach h1 cfg _)
                (λ token v2 h2.
                  wp-call _ _ (log_resident_action-Reach h2 _ _ _ _ _) (λ entry v3 h3. wp-pure _ h3)
                    (λ e v3 h3. h3))
                (λ e v2 h2. h2))
            (λ e v1 h1. h1)))
        (λ e v same. rw same so_far))

  pub provision-Reach : Wp (provision cfg unit_id name phone email actor_id) w (Reaches d)
  unfolding provision
  provision-Reach = wp-query _ _ (
      wp-require _ _ _
        (λ unit found. wp-query _ _ (
          wp-if _ (λ full. block_registration-Reach so_far _ _ _ _ _)
            (λ room. provision_in-Reach unit found (leb→lt _ _ room))))
        (λ missing. so_far))
