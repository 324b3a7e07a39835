-- ===== src/Lifecycle/Devices.antt =====
-- `register_device`, `revoke` and `update_contact` make only changes that the specification allows.
use vista_authen.Prelude.{
  not-false, sym, select-head, subst, ◌≡◌, refl, String, true, false, not, Option, none, some, List,
  [], ◌∷◌, arith, ◌==◌, select, String_eq,
}
use text.Mathlib.TextEquality.{eq_iff}
use vista_authen.Models.{status_eq, Uuid, Db, Resident, ActivationToken, pending}
use vista_authen.Session.{World, Result, ok, raised, require, value_error, invalid_token}
use vista_authen.Session.Wp.{
  Wp, wp-pure, wp-raise, wp-query, wp-require, wp-require_last, wp-raise_if, wp-raise_if_last,
  wp-modify, wp-utcnow, wp-lift, wp-call,
}
use vista_authen.Rows.{has-get, get-put, get, get-key, resident_keyed}
use vista_authen.Tables.{scalar_one_or_none}
use vista_authen.Services.Residents.{
  find_token, check_token, bind_device, register_device, is_used, revoke_found, revoke, set_phone,
  set_email, update_contact_found, update_contact,
}
use vista_authen.Lifecycle.{activation, put, Transition, resident_changed, token_used}
use vista_authen.Lifecycle.Logs.{At, step, Reaches, log_resident_action-Reach}

-- The token that is found is the only one with its text.
abbrev pub Finds : String → World → Result ActivationToken → World → Type 0
Finds s w (ok t) v =
    (v ≡ w) × (select (λ x. x.token == s) w.db.activation_tokens ≡ t ∷ []) × (t.token ≡ s)
Finds s w (raised e) v = v ≡ w

abbrev Returns : {A : Type 0} → List A → World → Result (Option A) → World → Type 0
Returns rows w (ok none) v = v ≡ w
Returns rows w (ok (some a)) v = (v ≡ w) × (rows ≡ a ∷ [])
Returns rows w (raised e) v = v ≡ w

scalar_one_or_none-Returns :
    {A : Type 0} (rows : List A) (w : World) → Wp (scalar_one_or_none rows) w (Returns rows w)
unfolding scalar_one_or_none
scalar_one_or_none-Returns [] w = wp-pure _ refl
scalar_one_or_none-Returns (x ∷ []) w = wp-pure _ (refl, refl)
scalar_one_or_none-Returns (x ∷ y ∷ xs) w = wp-raise _ refl

token_found :
    (s : String) (w : World) (found : Option ActivationToken) (v : World)
    → Returns (select (λ x. x.token == s) w.db.activation_tokens) w (ok found) v
    → Wp (require found (value_error invalid_token)) v (Finds s w)
token_found s w none v h = wp-require_last _ _ (λ a e. cc) (λ e. h)
token_found s w (some t) v h =
    wp-require_last _ _
      (λ a e.
        let same : t ≡ a = ground arith in
        rw (← same) (h.0, h.1, (eq_iff t.token s).0 (select-head _ w.db.activation_tokens h.1)))
      (λ e. cc)

pub find_token-Finds : (s : String) (w : World) → Wp (find_token s) w (Finds s w)
unfolding find_token
find_token-Finds s w = wp-query _ _ (
    wp-call _ _ (scalar_one_or_none-Returns _ w) (λ found v h. token_found s w found v h)
      (λ e v h. h))

-- The checks on a token read the clock once at most, and change no table.
abbrev pub Passes : ActivationToken → World → Result (Unit {0}) → World → Type 0
Passes t w (ok _) v = (v.db ≡ w.db) × (t.used_at ≡ none) × (v.committed ≡ w.committed)
Passes t w (raised e) v = (v.db ≡ w.db) × (v.committed ≡ w.committed)

not_used : (t : ActivationToken) → is_used t ≡ false → t.used_at ≡ none
not_used t h = ground arith

pub check_token-Passes : (t : ActivationToken) (w : World) → Wp (check_token t) w (Passes t w)
unfolding check_token
check_token-Passes t w =
    wp-raise_if _ _ _
      (λ unused. wp-utcnow _ (
        wp-lift _ _
          (λ expired e.
            wp-raise_if_last _ _ (λ valid. (refl, not_used t unused, refl)) (λ late. (refl, refl)))
          (λ e h. (refl, refl))))
      (λ used. (refl, refl))

only_token :
    (s : String) (w v : World) (t : ActivationToken)
    → Finds s w (ok t) v
    → (d : Db) → d ≡ w.db
    → select (λ x. x.token == t.token) d.activation_tokens ≡ t ∷ []
only_token s w v t found d same =
    rw same (
      subst (λ z. select (λ x. x.token == z) w.db.activation_tokens ≡ t ∷ []) (sym found.2) found.1)

pub status_pending : (r : Resident) → not (r.status == pending) ≡ false → r.status ≡ pending
status_pending r h = ground arith

module _ {d : Db} {w : World} (so_far : At d w) where
  -- the activation of a resident by a token that has passed
  bind_device-Reach :
      (t : ActivationToken) (r : Resident) (pem : String) (i : Uuid)
      → get i w.db.residents ≡ some r
      → r.status ≡ pending
      → select (λ x. x.token == t.token) w.db.activation_tokens ≡ t ∷ []
      → t.used_at ≡ none
      → Wp (bind_device t r pem) w (Reaches d)
  unfolding bind_device
  bind_device-Reach t r pem i found is_pending only unused =
      let found' : get r.id w.db.residents ≡ some r = get-key i w.db.residents found in
      wp-modify _ _ (
        wp-utcnow _ (
          wp-modify _ _ (
            wp-call _ _
              (log_resident_action-Reach
                (step (step so_far (resident_changed r _ found' (activation pem is_pending)))
                  (token_used t _ only unused))
                _ _ _ _ _)
              (λ a v h. wp-pure _ h) (λ e v h. h))))

module _ {d : Db} {w : World} (so_far : At d w) where
  pub register_device-Reach : (s pem : String) → Wp (register_device s pem) w (Reaches d)
  unfolding register_device
  register_device-Reach s pem =
      wp-call _ _ (find_token-Finds s w)
        (λ t v found. rw found.0 (
          wp-call _ _ (check_token-Passes t w)
            (λ a v1 passed. wp-query _ _ (
              wp-require _ _ _
                (λ r got.
                  wp-raise_if _ _ _
                    (λ is_pending.
                      bind_device-Reach (rw (passed.0, passed.2) so_far) t r pem t.resident_id got
                        (status_pending r is_pending) (only_token s w v t found v1.db passed.0)
                        passed.1)
                    (λ other. rw (passed.0, passed.2) so_far))
                (λ absent. rw (passed.0, passed.2) so_far)))
            (λ e v1 same. rw (same.0, same.1) so_far)))
        (λ e v same. rw same so_far)

  revoke_found-Reach :
      (i : Uuid) (o : Option Resident) (actor_id : Option Uuid)
      → get i w.db.residents ≡ o
      → Wp (revoke_found o i actor_id) w (Reaches d)
  unfolding revoke_found
  revoke_found-Reach i none actor_id e = wp-pure _ so_far
  revoke_found-Reach i (some r) actor_id e = wp-utcnow _ (
      wp-modify _ _ (
        wp-call _ _
          (log_resident_action-Reach
            (step so_far
              (resident_changed r _ (get-key i w.db.residents e) (Transition.revocation _)))
            _ _ _ _ _)
          (λ a v h. wp-pure _ h) (λ e v h. h)))

  pub revoke-Reach : (i : Uuid) (actor_id : Option Uuid) → Wp (revoke i actor_id) w (Reaches d)
  unfolding revoke
  revoke-Reach i actor_id = wp-query _ _ (revoke_found-Reach i (get i w.db.residents) actor_id refl)

-- After a contact attribute has been set, the row that is handed on is the one in the table.
abbrev Sets : Db → Result Resident → World → Type 0
Sets d (ok r) v = At d v × (get r.id v.db.residents ≡ some r) × (r.is_owner ≡ true)
Sets d (raised e) v = At d v

get_after_put :
    (r old : Resident) (xs : List Resident) (i : Uuid)
    → i ≡ r.id
    → get i xs ≡ some old
    → get i (put r xs) ≡ some r
get_after_put r old xs i same found = ground (arith, get-put i r xs, has-get i xs found)

module _ {d : Db} {w : World} (so_far : At d w) (r : Resident)
    (found : get r.id w.db.residents ≡ some r) (own : r.is_owner ≡ true) where
  set_phone-Sets : (s : Option String) → Wp (set_phone s r) w (Sets d)
  unfolding set_phone
  set_phone-Sets none = wp-pure _ (so_far, found, own)
  set_phone-Sets (some s) =
      wp-raise_if _ _ _
        (λ given. wp-modify _ _ (
          wp-pure _ (
            step so_far (resident_changed r _ found (Transition.phone_set s own given)),
            get_after_put _ r w.db.residents r.id refl found,
            own,
          )))
        (λ blank. so_far)

  set_email-Sets : (s : Option String) → Wp (set_email s r) w (Sets d)
  unfolding set_email
  set_email-Sets none = wp-pure _ (so_far, found, own)
  set_email-Sets (some s) =
      wp-raise_if _ _ _
        (λ given. wp-modify _ _ (
          wp-pure _ (
            step so_far (resident_changed r _ found (Transition.email_set s own given)),
            get_after_put _ r w.db.residents r.id refl found,
            own,
          )))
        (λ blank. so_far)

module _ {d : Db} {w : World} (so_far : At d w) where
  update_contact_found-Reach :
      (i : Uuid) (o : Option Resident) (phone email : Option String) (actor_id : Option Uuid)
      → get i w.db.residents ≡ o
      → Wp (update_contact_found o phone email actor_id) w (Reaches d)
  unfolding update_contact_found
  update_contact_found-Reach i none phone email actor_id e = wp-pure _ so_far
  update_contact_found-Reach i (some r) phone email actor_id e =
      wp-raise_if _ _ _
        (λ own.
          wp-call _ _ (set_phone-Sets so_far r (get-key i w.db.residents e) (not-false _ own) phone)
            (λ r1 v1 h1.
              wp-call _ _ (set_email-Sets h1.0 r1 h1.1 h1.2 email)
                (λ r2 v2 h2.
                  wp-call _ _ (log_resident_action-Reach h2.0 _ _ _ _ _) (λ a v h. wp-pure _ h)
                    (λ x v h. h))
                (λ x v2 h2. h2))
            (λ x v1 h1. h1))
        (λ other. so_far)

  pub update_contact-Reach :
      (i : Uuid) (phone email : Option String) (actor_id : Option Uuid)
      → Wp (update_contact i phone email actor_id) w (Reaches d)
  unfolding update_contact
  update_contact-Reach i phone email actor_id =
      wp-query _ _ (update_contact_found-Reach i (get i w.db.residents) phone email actor_id refl)
