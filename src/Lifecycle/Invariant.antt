-- ===== src/Lifecycle/Invariant.antt =====
-- The invariant of the tables, and the counts that it speaks of under each change of a resident.
use vista_authen.Prelude.{
  ◌≤◌, ◌≡◌, refl, true, false, none, some, arith, ℕ_eq, count, All, if◌then◌else◌,
}
use vista_authen.Models.{Uuid, BuildingUnit, Resident, Db, active, revoked, status_eq}
use vista_authen.Rows.{get, has, UniqueKeys, unit_keyed, resident_keyed, token_keyed}
use vista_authen.Python.Strings.{is_empty, strip}
use vista_authen.Tables.{occupies, active_resident_count}
use vista_authen.Services.Residents.{owns}
use vista_authen.Lifecycle.{String, Transition, activation, revocation, phone_set, email_set}

-- A resident holds a public key exactly while active, and only an owner has contact details.
pub record WellFormed (r : Resident) : Type 0 where
  pub active_key : r.status ≡ active → (k : String) × (r.public_key ≡ some k)
  pub other_key : (r.status ≡ active → ⊥) → r.public_key ≡ none
  pub other_contact : r.is_owner ≡ false → (r.phone ≡ none) × (r.email ≡ none)
  pub owner_contact :
      r.is_owner ≡ true
      → (p : String) × (e : String) × (r.phone ≡ some p)
        × (r.email ≡ some e)
        × (is_empty p ≡ false)
        × (is_empty e ≡ false)

pub record IsSound (d : Db) : Type 0 where
  pub unit_ids : UniqueKeys d.units
  pub resident_ids : UniqueKeys d.residents
  pub token_ids : UniqueKeys d.activation_tokens
  -- every resident lives in a unit of the table
  pub homes : All (λ r. has r.unit_id d.units ≡ true) d.residents
  -- every token is for a resident of the table
  pub holders : All (λ t. has t.resident_id d.residents ≡ true) d.activation_tokens
  -- no unit holds more residents than it may
  pub room :
      (i : Uuid) (u : BuildingUnit)
      → get i d.units ≡ some u
      → active_resident_count i d ≤ u.max_residents
  -- no unit has two owners
  pub one_owner : (i : Uuid) → count (owns i) d.residents ≤ 1
  pub residents_WellFormed : All WellFormed d.residents

-- What a transition leaves alone, and what it may only lose.
pub record Keeps (old r : Resident) : Type 0 where
  pub id : r.id ≡ old.id
  pub unit_id : r.unit_id ≡ old.unit_id
  pub is_owner : r.is_owner ≡ old.is_owner
  pub status : old.status ≡ revoked → r.status ≡ revoked

pub Transition-Keeps : {old r : Resident} → Transition old r → Keeps old r
Transition-Keeps {old} (activation pem p) = record {
  id = refl;
  unit_id = refl;
  is_owner = refl;
  status = λ h. cc;
}
Transition-Keeps (revocation now) = record {
  id = refl;
  unit_id = refl;
  is_owner = refl;
  status = λ h. refl;
}
Transition-Keeps (phone_set s o b) = record {
  id = refl;
  unit_id = refl;
  is_owner = refl;
  status = λ h. h;
}
Transition-Keeps (email_set s o b) = record {
  id = refl;
  unit_id = refl;
  is_owner = refl;
  status = λ h. h;
}

-- A transition never makes a resident count that did not.
pub occupies_mono :
    {old r : Resident} (i : Uuid)
    → Keeps old r
    → (if occupies i r then 1 else 0) ≤ (if occupies i old then 1 else 0)
occupies_mono {old} {r} i k = ground (arith, k.unit_id, k.status)

pub owns_mono :
    {old r : Resident} (i : Uuid)
    → Keeps old r
    → (if owns i r then 1 else 0) ≤ (if owns i old then 1 else 0)
owns_mono {old} {r} i k = ground (arith, k.unit_id, k.is_owner, k.status)

pub Transition-WellFormed : {old r : Resident} → Transition old r → WellFormed old → WellFormed r
Transition-WellFormed (activation pem p) f = record {
  active_key = λ h. (pem, refl);
  other_key = λ h. absurd (h refl);
  other_contact = f.other_contact;
  owner_contact = f.owner_contact;
}
Transition-WellFormed (revocation now) f = record {
  active_key = λ h. absurd (cc);
  other_key = λ h. refl;
  other_contact = f.other_contact;
  owner_contact = f.owner_contact;
}
Transition-WellFormed (phone_set s o b) f = record {
  active_key = f.active_key;
  other_key = f.other_key;
  other_contact = λ h. cc;
  owner_contact =
      λ h. let (p, e, hp, he, np, ne) = f.owner_contact h in (strip s, e, refl, he, b, ne);
}
Transition-WellFormed (email_set s o b) f = record {
  active_key = f.active_key;
  other_key = f.other_key;
  other_contact = λ h. absurd (cc);
  owner_contact =
      λ h. let (p, e, hp, he, np, ne) = f.owner_contact h in (p, strip s, hp, refl, np, b);
}
