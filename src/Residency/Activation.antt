-- ===== src/Residency/Activation.antt =====
-- An activation token works once.
use vista_authen.Prelude.{ℕ, ◌≡◌, refl, String, some, none, [], ◌∷◌, select, ◌==◌, String_eq, subst}
use vista_authen.Models.{Db, Resident, ActivationToken, pending}
use vista_authen.Session.{World, Result, ok, raised}
use vista_authen.Session.Wp.{
  wp-weaken, Wp, wp-pure, wp-query, wp-require, wp-raise_if, wp-modify, wp-utcnow, wp-call, wp-eq,
}
use vista_authen.Rows.{get, put, token_keyed, resident_keyed}
use vista_authen.Services.Residents.{bind_device, register_device, activated, consumed}
use vista_authen.Lifecycle.Devices.{find_token-Finds, check_token-Passes, status_pending}
use vista_authen.Residency.Entries.{log_resident_action-Noted}

-- A registration with token text `s` and key `pem` that returned `r` has activated a pending
-- resident, the holder of the one unused token with that text, and has consumed the token.
pub record Bound (s pem : String) (w : World) (r : Resident) (v : World) : Type 0 where
  pub token : ActivationToken
  pub only : select (λ x. x.token == s) w.db.activation_tokens ≡ token ∷ []
  pub unused : token.used_at ≡ none
  pub before : Resident
  pub holder : get token.resident_id w.db.residents ≡ some before
  pub was_pending : before.status ≡ pending
  pub result : r ≡ activated pem before
  pub residents : v.db.residents ≡ put (activated pem before) w.db.residents
  pub used : (now : ℕ) × (v.db.activation_tokens ≡ put (consumed now token) w.db.activation_tokens)

abbrev pub Binds : String → String → World → Result Resident → World → Type 0
Binds s pem w (ok r) v = Bound s pem w r v
Binds s pem w (raised e) v = Unit

-- What `bind_device` leaves, from the world `u`.
abbrev pub Done : ActivationToken → Resident → String → World → Result Resident → World → Type 0
Done t r pem u (ok a) v =
    (a ≡ activated pem r)
    × (v.db.residents ≡ put (activated pem r) u.db.residents)
    × ((now : ℕ) × (v.db.activation_tokens ≡ put (consumed now t) u.db.activation_tokens))
Done t r pem u (raised e) v = Unit

pub bind_device-Done :
    (t : ActivationToken) (r : Resident) (pem : String) (u : World)
    → Wp (bind_device t r pem) u (Done t r pem u)
unfolding bind_device
bind_device-Done t r pem u = wp-modify _ _ (
    wp-utcnow _ (
      wp-modify _ _ (
        wp-call _ _ (log_resident_action-Noted _ _ _ _ _ _)
          (λ l v h. wp-pure _ (refl, h.residents, (u.clock 0, h.tokens))) (λ e v h. tt))))

bound :
    (s pem : String) (w u : World) (t : ActivationToken) (r : Resident) (res : Result Resident)
    (v : World)
    → select (λ x. x.token == s) w.db.activation_tokens ≡ t ∷ []
    → u.db ≡ w.db
    → t.used_at ≡ none
    → get t.resident_id u.db.residents ≡ some r
    → r.status ≡ pending
    → Done t r pem u res v
    → Binds s pem w res v
bound s pem w u t r (raised e) v only same unused got was done = tt
bound s pem w u t r (ok a) v only same unused got was done = record {
  token = t;
  only = only;
  unused = unused;
  before = r;
  holder = subst (λ (d : Db). get t.resident_id d.residents ≡ some r) same got;
  was_pending = was;
  result = done.0;
  residents = subst (λ (d : Db). v.db.residents ≡ put (activated pem r) d.residents) same done.1;
  used = (
    done.2.0,
    subst (λ (d : Db). v.db.activation_tokens ≡ put (consumed done.2.0 t) d.activation_tokens) same
        done.2.1,
  );
}

register_device-Binds : (s pem : String) (w : World) → Wp (register_device s pem) w (Binds s pem w)
unfolding register_device
register_device-Binds s pem w =
    wp-call _ _ (find_token-Finds s w)
      (λ t v found. rw found.0 (
        wp-call _ _ (check_token-Passes t w)
          (λ a u passed. wp-query _ _ (
            wp-require _ _ _
              (λ r got.
                wp-raise_if _ _ _
                  (λ is_pending. wp-weaken (bind_device-Done t r pem u) (λ res v1 done.
                    bound s pem w u t r res v1 found.1 passed.0 passed.1 got
                      (status_pending r is_pending) done))
                  (λ other. tt))
              (λ absent. tt)))
          (λ e u h. tt)))
      (λ e v h. tt)

-- A registration that returns `r` has bound the key: the resident that holds the one unused token of
-- that text was pending, is active with the key now, and the token is marked as used.
pub register_device_binds :
    (s pem : String) (w v : World) (r : Resident)
    → register_device s pem w ≡ (ok r, v)
    → Bound s pem w r v
register_device_binds s pem w v r done = wp-eq (register_device-Binds s pem w) done
