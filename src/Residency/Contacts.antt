-- ===== src/Residency/Contacts.antt =====
-- `update_contact` of app/services/resident_service.py: the outcome on every branch.
use vista_authen.Prelude.{
  ◌≡◌, refl, ap, sym, ◌∙◌, String, Bool, true, false, not, Option, some, none, List, [], ◌∷◌, ◌⊎◌,
  inl, inr, arith, if◌then◌else◌, ℕ_eq,
}
use vista_authen.Models.{Uuid, Resident, Db}
use vista_authen.Session.{
  World, Result, ok, raised, Reason, value_error, integrity_error, contact_update_is_owner_only,
  empty_phone, empty_email,
}
use vista_authen.Session.Wp.{Wp, wp-pure, wp-query, wp-modify, wp-raise_if, wp-call}
use vista_authen.Rows.{get, put, get-key, resident_keyed}
use vista_authen.Python.Strings.{is_blank, strip}
use vista_authen.Services.Residents.{set_phone, set_email, update_contact_found, update_contact}
use vista_authen.Residency.Entries.{OnlyLogs, log_resident_action-Noted}
use vista_authen.Residency.Revocation.{get-put_self}

-- a text that is given and blank
abbrev pub refused : Option String → Bool
refused none = false
refused (some s) = is_blank s

abbrev pub replaced : Option String → Option String → Option String
replaced none old = old
replaced (some s) old = some (strip s)

abbrev pub with_contact : Option String → Option String → Resident → Resident
with_contact phone email r = record r {
  phone = replaced phone r.phone;
  email = replaced email r.email;
}

-- What an update of the contact details answers, for the row of the id.
unfoldable pub contact_outcome :
    Option Resident → Option String → Option String → Result (Option Resident)
contact_outcome none phone email = ok none
contact_outcome (some r) phone email =
    if not r.is_owner
    then raised (value_error contact_update_is_owner_only)
    else if refused phone
    then raised (value_error empty_phone)
    else if refused email
    then raised (value_error empty_email)
    else ok (some (with_contact phone email r))

-- The row of the id is the amended one, and no other row has changed.
pub record Amended (i : Uuid) (r : Resident) (w v : World) : Type 0 where
  pub row : get i v.db.residents ≡ some r
  pub residents : v.db.residents ≡ put r w.db.residents
  pub units : v.db.units ≡ w.db.units
  pub tokens : v.db.activation_tokens ≡ w.db.activation_tokens

-- An update ends as `outcome` says, or the database refuses its audit entry.
abbrev pub Amends :
    Uuid → Result (Option Resident) → World → Result (Option Resident) → World → Type 0
Amends i outcome w (ok none) v = (outcome ≡ ok none) × (v ≡ w)
Amends i outcome w (ok (some r)) v = (outcome ≡ ok (some r)) × Amended i r w v
Amends i outcome w (raised x) v =
    (outcome ≡ raised x) ⊎ ((x ≡ integrity_error) × (r : Resident) × (outcome ≡ ok (some r)))

put-put : (a b : Resident) (xs : List Resident) → a.id ≡ b.id → put a (put b xs) ≡ put a xs
unfolding put
put-put a b [] e = refl
put-put a b (x ∷ xs) e = ground (arith, put-put a b xs e)

put_found : (r : Resident) (xs : List Resident) → get r.id xs ≡ some r → put r xs ≡ xs
unfolding put get
put_found r [] h = refl
put_found r (x ∷ xs) h = ground (arith, put_found r xs)

-- One attribute is written, or its text is blank.
abbrev Sets : Reason → Bool → Resident → World → Result Resident → World → Type 0
Sets reason blank r w (ok s) v =
    (blank ≡ false)
    × (s ≡ r)
    × (v ≡ record w { db = record (w.db) { residents = put r w.db.residents } })
Sets reason blank r w (raised x) v = (blank ≡ true) × (x ≡ value_error reason)

module _ (w : World) (r : Resident) (found : get r.id w.db.residents ≡ some r) where
  unwritten : w ≡ record w { db = record (w.db) { residents = put r w.db.residents } }
  unwritten =
      ap (λ (xs : List Resident). record w { db = record (w.db) { residents = xs } })
        (sym (put_found r w.db.residents found))

  set_phone-Sets :
      (p : Option String)
      → Wp
          (set_phone p r)
          w
          (Sets empty_phone (refused p) (record r { phone = replaced p r.phone }) w)
  unfolding set_phone
  set_phone-Sets none = wp-pure _ (refl, refl, unwritten)
  set_phone-Sets (some s) =
      wp-raise_if _ _ _ (λ fits. wp-modify _ _ (wp-pure _ (fits, refl, refl)))
        (λ blank. (blank, refl))

  set_email-Sets :
      (p : Option String)
      → Wp
          (set_email p r)
          w
          (Sets empty_email (refused p) (record r { email = replaced p r.email }) w)
  unfolding set_email
  set_email-Sets none = wp-pure _ (refl, refl, unwritten)
  set_email-Sets (some s) =
      wp-raise_if _ _ _ (λ fits. wp-modify _ _ (wp-pure _ (fits, refl, refl)))
        (λ blank. (blank, refl))

-- What the amended row and its audit entry leave behind.
noted-Amended :
    (i : Uuid) (r s : Resident) (w u v : World)
    → get i w.db.residents ≡ some r
    → s.id ≡ r.id
    → u.db ≡ record (w.db) { residents = put s w.db.residents }
    → OnlyLogs u v
    → Amended i s w v
noted-Amended i r s w u v found same before h =
    let written : v.db.residents ≡ put s w.db.residents =
      h.residents ∙ ap (λ (d : Db). d.residents) before in
    record {
      row = ap (get i) written ∙ get-put_self i s r w.db.residents found same;
      residents = written;
      units = h.units ∙ ap (λ (d : Db). d.units) before;
      tokens = h.tokens ∙ ap (λ (d : Db). d.activation_tokens) before;
    }

-- The outcome on each branch of an owner's row.
module _ (r : Resident) (phone email : Option String) (owner : not r.is_owner ≡ false) where
  blank_phone :
      refused phone ≡ true → contact_outcome (some r) phone email ≡ raised (value_error empty_phone)
  unfolding contact_outcome
  blank_phone h = rw (owner, h) refl

  blank_email :
      refused phone ≡ false
      → refused email ≡ true
      → contact_outcome (some r) phone email ≡ raised (value_error empty_email)
  unfolding contact_outcome
  blank_email h k = rw (owner, h, k) refl

  amended :
      refused phone ≡ false
      → refused email ≡ false
      → contact_outcome (some r) phone email ≡ ok (some (with_contact phone email r))
  unfolding contact_outcome
  amended h k = rw (owner, h, k) refl

module _ (i : Uuid) (phone email : Option String) (actor : Option Uuid) (w : World) where
  update_contact_found-Amends :
      (o : Option Resident)
      → get i w.db.residents ≡ o
      → Wp (update_contact_found o phone email actor) w (Amends i (contact_outcome o phone email) w)
  unfolding update_contact_found
  update_contact_found-Amends none e = wp-pure _ (unfold contact_outcome in refl, refl)
  update_contact_found-Amends (some r) e =
      let ws = w.db.residents in
      wp-raise_if _ _ _
        (λ owner.
          wp-call _ _ (set_phone-Sets w r (get-key i ws e) phone)
            (λ a v h.
              rw (h.1, h.2)
                (let with_phone : Resident = record r { phone = replaced phone r.phone } in
                  let kept : get with_phone.id (put with_phone ws) ≡ some with_phone =
                    get-put_self r.id with_phone r ws (get-key i ws e) refl in
                  wp-call _ _ (set_email-Sets _ with_phone kept email)
                    (λ b u k. rw k.1 (
                      wp-call _ _ (log_resident_action-Noted _ _ _ _ _ _)
                        (λ l t n. wp-pure _ (
                          amended r phone email owner h.0 k.0,
                          noted-Amended i r (with_contact phone email r) w u t e refl
                              (ap (λ (q : World). q.db) k.2
                                ∙ ap (λ (xs : List Resident). record (w.db) { residents = xs })
                                    (put-put (with_contact phone email r) with_phone ws refl))
                              n,
                        ))
                        (λ x t n.
                          inr (
                            n.1,
                            with_contact phone email r,
                            amended r phone email owner h.0 k.0,
                          ))))
                    (λ x u k. inl (blank_email r phone email owner h.0 k.0 ∙ ap raised (sym k.1)))))
            (λ x v h. inl (blank_phone r phone email owner h.0 ∙ ap raised (sym h.1))))
        (λ tenant. inl (unfold contact_outcome in rw tenant refl))

  wp-update_contact :
      Wp
        (update_contact i phone email actor)
        w
        (Amends i (contact_outcome (get i w.db.residents) phone email) w)
  unfolding update_contact
  wp-update_contact = wp-query _ _ (update_contact_found-Amends (get i w.db.residents) refl)

-- An update of the contact details answers as the row of the id and the texts say: nothing for an
-- unknown id; an error, in this order, for one who is not the owner, for a blank telephone number
-- and for a blank email address; otherwise the row with the stripped texts that were given, which is
-- then in the table in place of the old one while no other row has changed. The only other error is
-- a refused audit entry.
pub update_contact-Amends :
    (i : Uuid) (phone email : Option String) (actor : Option Uuid) (w : World)
    → Amends i
        (contact_outcome (get i w.db.residents) phone email)
        w
        (update_contact i phone email actor w).0
        (update_contact i phone email actor w).1
update_contact-Amends i phone email actor w = (wp-update_contact i phone email actor w).at
