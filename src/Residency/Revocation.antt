-- ===== src/Residency/Revocation.antt =====
-- `revoke` bars the resident from entry.
use vista_authen.Prelude.{arith, List, ◌≡◌, refl, Option, some, none, ap, ◌∙◌}
use vista_authen.Models.{Uuid, Resident, revoked}
use vista_authen.Session.{World, Result, ok, raised, integrity_error}
use vista_authen.Session.Wp.{Wp, wp-pure, wp-query, wp-modify, wp-utcnow, wp-call}
use vista_authen.Rows.{get, put, get-put, has-get, key-get, resident_keyed}
use vista_authen.Services.Residents.{revoke_found, revoke}
use vista_authen.Residency.Entries.{log_resident_action-Noted}

-- The row is revoked, without a key; nobody else's has changed.
abbrev pub Bars : Uuid → World → Result (Option Resident) → World → Type 0
Bars i w (ok none) v = (get i w.db.residents ≡ none) × (v ≡ w)
Bars i w (ok (some r)) v =
    (get i v.db.residents ≡ some r)
    × (r.status ≡ revoked)
    × (r.public_key ≡ none)
    × (v.db.residents ≡ put r w.db.residents)
Bars i w (raised e) v = e ≡ integrity_error

pub get-put_self :
    (i : Uuid) (r old : Resident) (xs : List Resident)
    → get i xs ≡ some old
    → r.id ≡ old.id
    → get i (put r xs) ≡ some r
get-put_self i r old xs found same =
    let e : r.id ≡ i = same ∙ key-get i xs found in
    ground (arith, get-put i r xs, has-get i xs found, e)

revoke_found-Bars :
    (i : Uuid) (o : Option Resident) (actor_id : Option Uuid) (w : World)
    → get i w.db.residents ≡ o
    → Wp (revoke_found o i actor_id) w (Bars i w)
unfolding revoke_found
revoke_found-Bars i none actor_id w e = wp-pure _ (e, refl)
revoke_found-Bars i (some r) actor_id w e = wp-utcnow _ (
    wp-modify _ _ (
      wp-call _ _ (log_resident_action-Noted _ _ _ _ _ _)
        (λ l v h. wp-pure _ (
          ap (get i) h.residents ∙ get-put_self i _ r w.db.residents e refl,
          refl,
          refl,
          h.residents,
        ))
        (λ x v h. h.1)))

wp-revoke : (i : Uuid) (actor_id : Option Uuid) (w : World) → Wp (revoke i actor_id) w (Bars i w)
unfolding revoke
wp-revoke i actor_id w = wp-query _ _ (revoke_found-Bars i (get i w.db.residents) actor_id w refl)

-- Revoking an id that is there leaves its row revoked, without a public key, and changes no other
-- row; an id that is not there changes nothing; the only error is a refused audit entry.
pub revoke-Bars :
    (i : Uuid) (actor_id : Option Uuid) (w : World)
    → Bars i w (revoke i actor_id w).0 (revoke i actor_id w).1
revoke-Bars i actor_id w = (wp-revoke i actor_id w).at
