-- ===== src/Residency/Contending.antt =====
-- app/services/resident_service.py, register_device: the token is checked before the key is written,
-- and nothing keeps another device from using it in between.
use vista_authen.Prelude.{
  suc, ◌≤◌, ◌≡◌, refl, ap, ◌∙◌, subst, String, false, not, none, some, arith, ◌==◌, String_eq,
}
use vista_authen.Models.{Resident, ActivationToken, Db, aware, micros, pending, status_eq}
use vista_authen.Session.{
  World, Result, ok, query, require, raise_if, value_error, resident_not_found, not_pending, ◌>>=◌,
}
use vista_authen.Session.Wp.{
  Wp, wp-query, wp-require, wp-raise_if, wp-raise_if_last, wp-utcnow, wp-lift, wp-call, wp-eq,
}
use vista_authen.Rows.{get, put, get-key, resident_keyed}
use vista_authen.Services.Residents.{
  as_utc, lt_datetime, check_token, activated, bind_device, register_device,
}
use vista_authen.Residency.Activation.{Bound, register_device_binds, Done, bind_device-Done}
use vista_authen.Residency.Accepting.{IsReady, find_token-Returns, not_late, refused_pending}
use vista_authen.Residency.Revocation.{get-put_self}

-- after one reading of the clock
abbrev pub ticked : World → World
ticked w = record w { clock = λ i. w.clock (suc i) }

check_token-ticked :
    (w : World) (t : ActivationToken)
    → t.used_at ≡ none
    → w.clock 0 ≤ micros t.expires_at
    → Wp (check_token t) w (λ r v. (r ≡ ok tt) × (v ≡ ticked w))
unfolding check_token
check_token-ticked w t unused in_time =
    let timely : lt_datetime (as_utc t.expires_at) (aware (w.clock 0)) ≡ ok false =
      not_late t.expires_at (w.clock 0) in_time in
    wp-raise_if _ _ _
      (λ free. wp-utcnow _ (
        wp-lift _ _
          (λ expired e. wp-raise_if_last _ _ (λ valid. (refl, refl)) (λ late. absurd (cc)))
          (λ e h. absurd (cc))))
      (λ used. absurd (ground arith))

module _ (s pem : String) (w : World) (t : ActivationToken) (r : Resident)
    (ready : IsReady s w t r) where
  abbrev Second : Result Resident → World → Type 0
  Second a v = (a, v) ≡ bind_device t r pem (ticked w)

  remaining_calls :
      Wp
        (query (λ d. get t.resident_id d.residents) >>= λ found.
          require found (value_error resident_not_found) >>= λ resident.
          raise_if (not (resident.status == pending)) (value_error (not_pending resident.status))
          >>= λ _. bind_device t resident pem)
        (ticked w)
        Second
  remaining_calls = wp-query _ _ (
      wp-require _ _ _
        (λ b got.
          let is : b ≡ r = let there = ready.holder in cc in
          rw is (
            wp-raise_if _ _ _ (λ waits. record { at = refl })
              (λ other. absurd (refused_pending r ready.is_pending other))))
        (λ missing. let there = ready.holder in absurd (cc)))

  wp-register : Wp (register_device s pem) w Second
  unfolding register_device
  wp-register =
      wp-call _ _ (find_token-Returns s w t ready.only)
        (λ k v h.
          let is : k ≡ t = cc (h.0) in
          rw h.1 (
            rw is (
              wp-call _ _ (check_token-ticked w t ready.unused ready.in_time)
                (λ a u passed. rw passed.1 remaining_calls) (λ e u k. absurd (cc (k.0))))))
        (λ e v h. absurd (cc (h.0)))

  -- with a token that is ready, a registration is its second half
  pub register_device_ready : register_device s pem w ≡ bind_device t r pem (ticked w)
  register_device_ready = wp-register.at

-- the row and the token of one text are what they are
same_row :
    (s : String) (w : World) (t : ActivationToken) (r r1 : Resident) (pem : String) (v : World)
    → IsReady s w t r
    → Bound s pem w r1 v
    → (r1 ≡ activated pem r) × (v.db.residents ≡ put (activated pem r) w.db.residents)
same_row s w t r r1 pem v ready b =
    let token : b.token ≡ t = let one = ready.only in let other = b.only in cc in
    let row : b.before ≡ r =
      let one = ready.holder in
      let other : get t.resident_id w.db.residents ≡ some b.before =
        subst (λ (k : ActivationToken). get k.resident_id w.db.residents ≡ some b.before) token
          b.holder in
      cc in
    (
      b.result ∙ ap (activated pem) row,
      b.residents ∙ ap (λ k. put (activated pem k) w.db.residents) row,
    )

-- Two devices with one token, where the first registers and commits between the checks of the second
-- and its writes: the checks of the second pass, the first is told that the resident is active with
-- its key, and if the second returns, the resident's row holds the key of the second.
pub register_device-bind_device :
    (s pem1 pem2 : String) (w w2 v1 v2 : World) (t : ActivationToken) (r r1 r2 : Resident)
    → IsReady s w t r
    → register_device s pem1 w ≡ (ok r1, v1)
    → w2.db ≡ v1.db
    → bind_device t r pem2 w2 ≡ (ok r2, v2)
    → (register_device s pem2 w ≡ bind_device t r pem2 (ticked w))
      × (r1.public_key ≡ some pem1)
      × (get r.id v2.db.residents ≡ some (activated pem2 r))
register_device-bind_device s pem1 pem2 w w2 v1 v2 t r r1 r2 ready first same second =
    let b : Bound s pem1 w r1 v1 = register_device_binds s pem1 w v1 r1 first in
    let (told, written) = same_row s w t r r1 pem1 v1 ready b in
    let d : Done t r pem2 w2 (ok r2) v2 = wp-eq (bind_device-Done t r pem2 w2) second in
    let there : get r.id w.db.residents ≡ some r =
      get-key t.resident_id w.db.residents ready.holder in
    let before : get r.id w2.db.residents ≡ some (activated pem1 r) =
      ap (λ (x : Db). get r.id x.residents) same
      ∙ ap (get r.id) written
      ∙ get-put_self r.id (activated pem1 r) r w.db.residents there refl in
    (
      register_device_ready s pem2 w t r ready,
      ap (λ (x : Resident). x.public_key) told,
      ap (get r.id) d.1
          ∙ get-put_self r.id (activated pem2 r) (activated pem1 r) w2.db.residents before refl,
    )
