-- ===== src/Scans/Verifying.antt =====
-- A scan that answers `valid` had a payload that lets a resident in, and every scan writes one entry.
use text.Mathlib.TextEquality.{eq_iff}
use vista_authen.Prelude.Int.{ℤ, abs_diff}
use vista_authen.Python.Strings.{str_len, split}
use vista_authen.Python.UuidText.{parse_uuid}
use vista_authen.Python.Numbers.{parse_int}
use vista_authen.Rows.{get, resident_keyed}
use vista_authen.Prelude.{
  arith, ℕ, ◌≤◌, ◌≡◌, refl, String, Bool, true, false, Option, some, none, List, [], ◌∷◌, ltb,
}
use vista_authen.Models.{Uuid, Resident, active, status_eq}
use vista_authen.Session.{World, Result, ok, raised}
use vista_authen.Session.Wp.{Wp, wp-query, wp-utcnow, wp-if}
use vista_authen.Externals.{Externals}
use vista_authen.Config.{Settings}
use vista_authen.Services.Access.{
  decide, check_signature, check_resident, check_timestamp, check_id, check_fields, verify,
  usable_key, fields_of, seconds,
}
use vista_authen.Services.Crypto.{verify_signature}
use vista_authen.Scans.{b64decode, Signs, Admits}
use vista_authen.Scans.Outcome.{Ends}
use vista_authen.Scans.Logging.{
  reject-Ends, reject_for-Ends, admit-Ends, bad_signature≢success, expired≢success,
}

module _ (x : Externals) (J : Type 0) (w : World) (c i : Uuid) where
  decide-Ends :
      (o : Result Bool) (r : Resident) → (o ≡ ok true → J) → Wp (decide x o c i r) w (Ends c w.db J)
  unfolding decide
  decide-Ends (ok true) r j = admit-Ends J w c i r (j refl)
  decide-Ends (ok false) r j = reject_for-Ends J w c _ _
  decide-Ends (raised e) r j = reject-Ends J w c _ _ _ bad_signature≢success

  check_signature-Ends :
      (o : Option (List ℕ)) (r : Resident) (key payload : String)
      → ((signature : List ℕ)
          → o ≡ some signature
          → verify_signature x key payload signature ≡ ok true
          → J)
      → Wp (check_signature x o c i r key payload) w (Ends c w.db J)
  unfolding check_signature
  check_signature-Ends none r key payload j = reject_for-Ends J w c _ _
  check_signature-Ends (some signature) r key payload j = decide-Ends _ r (j signature refl)

  check_resident-Ends :
      (o : Option (Resident × String)) (payload sig : String)
      → ((r : Resident) (key : String) (signature : List ℕ)
          → o ≡ some (r, key)
          → b64decode sig ≡ some signature
          → verify_signature x key payload signature ≡ ok true
          → J)
      → Wp (check_resident x o c i payload sig) w (Ends c w.db J)
  unfolding check_resident
  check_resident-Ends none payload sig j = reject_for-Ends J w c _ _
  check_resident-Ends (some (r, key)) payload sig j =
      check_signature-Ends _ r key payload (λ signature. j r key signature refl)

-- What a usable key says of the row.
pub usable_key_facts :
    (o : Option Resident) (r : Resident) (key : String)
    → usable_key o ≡ some (r, key)
    → (o ≡ some r) × (r.status ≡ active) × (r.public_key ≡ some key)
unfolding usable_key
usable_key_facts none r key h = absurd (cc)
usable_key_facts (some s) r key h = ground arith

-- Four parts, the first of them `V1`.
fields_of_parts :
    (ps : List String) (id t sig : String)
    → fields_of ps ≡ some (id, t, sig)
    → ps ≡ "V1" ∷ id ∷ t ∷ sig ∷ []
unfolding fields_of
fields_of_parts (v ∷ a ∷ b ∷ s ∷ []) id t sig h = ground (arith, eq_iff v "V1")
fields_of_parts [] id t sig h = absurd (cc)
fields_of_parts (v ∷ []) id t sig h = absurd (cc)
fields_of_parts (v ∷ a ∷ []) id t sig h = absurd (cc)
fields_of_parts (v ∷ a ∷ b ∷ []) id t sig h = absurd (cc)
fields_of_parts (v ∷ a ∷ b ∷ s ∷ q ∷ ps) id t sig h = absurd (cc)

not_late : (n m : ℕ) → ltb n m ≡ false → m ≤ n
not_late n m h = ground arith

module _ (x : Externals) (cfg : Settings) (w : World) (c : Uuid) (qr : String) where
  -- some resident is let in by the payload, at the next reading of the clock
  abbrev Entry : Type 0
  Entry = (r : Resident) × Admits x cfg w.db (w.clock 0) qr r

  check_timestamp-Ends :
      (o : Option ℤ) (i : Uuid) (payload sig : String)
      → ((t : ℤ) (r : Resident)
          → o ≡ some t
          → abs_diff (seconds (w.clock 0)) t ≤ cfg.qr_timestamp_tolerance_sec
          → get i w.db.residents ≡ some r
          → Signs x r payload sig
          → Entry)
      → Wp (check_timestamp x cfg o c i payload sig) w (Ends c w.db Entry)
  unfolding check_timestamp
  check_timestamp-Ends none i payload sig j = reject_for-Ends Entry w c _ _
  check_timestamp-Ends (some t) i payload sig j = wp-utcnow _ (
      (wp-if (ltb cfg.qr_timestamp_tolerance_sec (abs_diff (seconds (w.clock 0)) t))
        (λ late. reject-Ends Entry _ c _ _ _ expired≢success)
        (λ timely. wp-query _ _ (
          check_resident-Ends x Entry _ c i _ payload sig
            (λ r key signature usable decodes verifies.
              let facts : (get i w.db.residents ≡ some r)
                  × (r.status ≡ active)
                  × (r.public_key ≡ some key) =
                usable_key_facts _ r key usable in
              j t r refl (not_late _ _ timely) facts.0 (record {
                is_active = facts.1;
                key = key;
                has_key = facts.2;
                signature = signature;
                decodes = decodes;
                verifies = verifies;
              }))))))

  check_id-Ends :
      (o : Option Uuid) (id t sig : String)
      → str_len qr ≤ 10240
      → split b'|' qr ≡ "V1" ∷ id ∷ t ∷ sig ∷ []
      → parse_uuid id ≡ o
      → Wp (check_id x cfg o id t sig c) w (Ends c w.db Entry)
  unfolding check_id
  check_id-Ends none id t sig size parts e = reject_for-Ends Entry w c _ _
  check_id-Ends (some i) id t sig size parts e =
      check_timestamp-Ends (parse_int 10 t) i _ sig (λ timestamp r parses timely found signed. (
        r,
        record {
          size = size;
          id_text = id;
          timestamp_text = t;
          signature_text = sig;
          parts = parts;
          id = i;
          id_parses = e;
          timestamp = timestamp;
          timestamp_parses = parses;
          timely = timely;
          found = found;
          signed = signed;
        },
      ))

  check_fields-Ends :
      (o : Option (String × String × String))
      → str_len qr ≤ 10240
      → fields_of (split b'|' qr) ≡ o
      → Wp (check_fields x cfg o qr c) w (Ends c w.db Entry)
  unfolding check_fields
  check_fields-Ends none size e = reject-Ends Entry w c _ _ _ bad_signature≢success
  check_fields-Ends (some (id, t, sig)) size e =
      check_id-Ends _ id t sig size (fields_of_parts (split b'|' qr) id t sig e) refl

  verify-Ends : Wp (verify x cfg qr c) w (Ends c w.db Entry)
  unfolding verify
  verify-Ends =
      wp-if (ltb 10240 (str_len qr)) (λ large. reject_for-Ends Entry w c _ _)
        (λ fits. check_fields-Ends _ (not_late _ _ fits) refl)

-- A scan that returns has written one entry by the checker and changed nothing else; the entry is a
-- success exactly when the answer is `valid`, and then the payload lets a resident in. A scan that
-- raises does so because the entry was refused, and has changed nothing.
pub verify_outcome :
    (x : Externals) (cfg : Settings) (w : World) (c : Uuid) (qr : String)
    → Ends c w.db
        ((r : Resident) × Admits x cfg w.db (w.clock 0) qr r)
        (verify x cfg qr c w).0
        (verify x cfg qr c w).1
verify_outcome x cfg w c qr = (verify-Ends x cfg w c qr).at
