-- ===== src/Residency/Accepting.antt =====
-- A device that comes in time with the token of a pending resident is registered.
use vista_authen.Prelude.{
  ℕ, ◌≤◌, ◌≡◌, refl, sym, ap, ◌∙◌, subst, String, true, false, not, Option, none, some, [], ◌∷◌,
  arith, ◌==◌, String_eq, select,
}
use vista_authen.Models.{
  Uuid, Resident, ActivationToken, DateTime, naive, aware, micros, Details, Db, pending, status_eq,
}
use vista_authen.Session.{
  World, Result, ok, query, require, raise_if, value_error, invalid_token, resident_not_found,
  not_pending, ◌>>=◌,
}
use vista_authen.Session.Wp.{
  Wp, wp-pure, wp-query, wp-require, wp-require_last, wp-raise_if, wp-raise_if_last, wp-modify,
  wp-utcnow, wp-uuid4, wp-server_now, wp-lift, wp-call,
}
use vista_authen.Rows.{get, has, unit_keyed, resident_keyed, audit_log_keyed}
use vista_authen.Tables.{log_refused, scalar_one_or_none}
use vista_authen.Services.Logging.{log, log_resident_action}
use vista_authen.Services.Residents.{
  as_utc, lt_datetime, check_token, find_token, activated, bind_device, register_device,
}
use vista_authen.Scans.Admitting.{Written, add_log-Written}

-- `t` is the one token with the text `s`, neither used nor expired, and `r` the pending resident who
-- holds it; an audit entry can be written for the unit of `r`.
pub record IsReady (s : String) (w : World) (t : ActivationToken) (r : Resident) : Type 0 where
  pub only : select (λ x. x.token == s) w.db.activation_tokens ≡ t ∷ []
  pub unused : t.used_at ≡ none
  pub in_time : w.clock 0 ≤ micros t.expires_at
  pub holder : get t.resident_id w.db.residents ≡ some r
  pub is_pending : r.status ≡ pending
  pub fresh_entry : has (w.uuids 0) w.db.audit_logs ≡ false
  pub home : has r.unit_id w.db.units ≡ true

abbrev pub Returns : {A : Type 0} → A → World → Result A → World → Type 0
Returns a w r v = (r ≡ ok a) × (v ≡ w)

pub find_token-Returns :
    (s : String) (w : World) (t : ActivationToken)
    → select (λ x. x.token == s) w.db.activation_tokens ≡ t ∷ []
    → Wp (find_token s) w (Returns t w)
unfolding find_token scalar_one_or_none
find_token-Returns s w t only = wp-query _ _ (
    subst
      (λ rows.
        Wp (scalar_one_or_none rows >>= (λ found. require found (value_error invalid_token))) w
          (Returns t w))
      (sym only)
      (wp-call _ _ (wp-pure {Q = Returns (some t) w} _ (refl, refl))
        (λ o v h. wp-require_last _ _ (λ a e. (cc, h.1)) (λ e. absurd (cc (h.0))))
        (λ e v h. absurd (cc (h.0)))))

log_resident_action-Written :
    (action : String) (i : Option Uuid) (role : String) (u : Uuid) (details : Details) (w : World)
    → has (w.uuids 0) w.db.audit_logs ≡ false
    → has u w.db.units ≡ true
    → Wp (log_resident_action action i role (some u) details) w Written
unfolding log_resident_action log log_refused
log_resident_action-Written action i role u details w fresh home = wp-uuid4 _ (
    wp-server_now _ (
      wp-call _ _ (add_log-Written _ _ (unfold log_refused in ground arith))
        (λ a v h. wp-pure _ (_, refl)) (λ e v h. absurd (cc (h.1)))))

pub not_late :
    (d : DateTime) (now : ℕ) → now ≤ micros d → lt_datetime (as_utc d) (aware now) ≡ ok false
not_late (naive n) now h = ap (λ b. ok b) (ground arith)
not_late (aware n) now h = ap (λ b. ok b) (ground arith)

-- the checks pass, and read the clock
abbrev Ticks : World → Result (Unit {0}) → World → Type 0
Ticks w r v = (r ≡ ok tt) × (v.db ≡ w.db) × (v.uuids ≡ w.uuids)

check_token-Ticks :
    (w : World) (t : ActivationToken)
    → t.used_at ≡ none
    → w.clock 0 ≤ micros t.expires_at
    → Wp (check_token t) w (Ticks w)
unfolding check_token
check_token-Ticks w t unused in_time =
    wp-raise_if _ _ _
      (λ free. wp-utcnow _ (
        wp-lift _ _
          (λ expired e.
            wp-raise_if_last _ _ (λ valid. (refl, refl, refl))
              (λ late.
                let timely : lt_datetime (as_utc t.expires_at) (aware (w.clock 0)) ≡ ok false =
                  not_late t.expires_at (w.clock 0) in_time in
                absurd (cc)))
          (λ e h.
            let timely : lt_datetime (as_utc t.expires_at) (aware (w.clock 0)) ≡ ok false =
              not_late t.expires_at (w.clock 0) in_time in
            absurd (cc))))
      (λ used. absurd (ground arith))

bind_device_accepts :
    (t : ActivationToken) (r : Resident) (pem : String) (w : World)
    → has (w.uuids 0) w.db.audit_logs ≡ false
    → has r.unit_id w.db.units ≡ true
    → Wp (bind_device t r pem) w (λ a v. a ≡ ok (activated pem r))
unfolding bind_device
bind_device_accepts t r pem w fresh home = wp-modify _ _ (
    wp-utcnow _ (
      wp-modify _ _ (
        wp-call _ _ (log_resident_action-Written _ _ _ _ _ _ fresh home) (λ l v h. wp-pure _ refl)
          (λ e v h. absurd (cc (h.1))))))

pub refused_pending : (r : Resident) → r.status ≡ pending → not (r.status == pending) ≡ true → ⊥
refused_pending r h other = ground arith

module _ (s pem : String) (w : World) (t : ActivationToken) (r : Resident)
    (ready : IsReady s w t r) where
  -- the second half, once the checks have passed
  registers :
      (v : World)
      → v.db ≡ w.db
      → v.uuids ≡ w.uuids
      → Wp
          (query (λ d. get t.resident_id d.residents) >>= λ found.
            require found (value_error resident_not_found) >>= λ resident.
            raise_if (not (resident.status == pending)) (value_error (not_pending resident.status))
            >>= λ _. bind_device t resident pem)
          v
          (λ a u. a ≡ ok (activated pem r))
  registers v same ids =
      let there : get t.resident_id v.db.residents ≡ some r =
        subst (λ (d : Db). get t.resident_id d.residents ≡ some r) (sym same) ready.holder in
      let fresh : has (v.uuids 0) v.db.audit_logs ≡ false =
        ap (λ f. has (f 0) v.db.audit_logs) ids
        ∙ ap (λ (d : Db). has (w.uuids 0) d.audit_logs) same
        ∙ ready.fresh_entry in
      let home : has r.unit_id v.db.units ≡ true =
        ap (λ (d : Db). has r.unit_id d.units) same ∙ ready.home in
      wp-query _ _ (
        wp-require _ _ _
          (λ b got.
            let is : b ≡ r = cc in
            rw is (
              wp-raise_if _ _ _ (λ waits. bind_device_accepts t r pem v fresh home)
                (λ other. absurd (refused_pending r ready.is_pending other))))
          (λ missing. absurd (cc)))

  register_device-Accepts : Wp (register_device s pem) w (λ a v. a ≡ ok (activated pem r))
  unfolding register_device
  register_device-Accepts =
      wp-call _ _ (find_token-Returns s w t ready.only)
        (λ k v h.
          let is : k ≡ t = cc (h.0) in
          rw h.1 (
            rw is (
              wp-call _ _ (check_token-Ticks w t ready.unused ready.in_time)
                (λ a u k. registers u k.1 k.2) (λ e u k. absurd (cc (k.0))))))
        (λ e v h. absurd (cc (h.0)))

-- A device that comes in time with the one token of its text, unused, of a pending resident, is
-- registered, where an audit entry can be written: the call returns the resident, active with the key.
pub register_device_accepts :
    (s pem : String) (w : World) (t : ActivationToken) (r : Resident)
    → IsReady s w t r
    → (register_device s pem w).0 ≡ ok (activated pem r)
register_device_accepts s pem w t r ready = (register_device-Accepts s pem w t r ready).at
