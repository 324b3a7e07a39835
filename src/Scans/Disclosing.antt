-- ===== src/Scans/Disclosing.antt =====
-- To whom a scan names the resident.
use vista_authen.Prelude.{
  ℕ, ◌≡◌, refl, String, Bool, true, false, Option, some, none, List, arith, ltb, if◌then◌else◌,
}
use vista_authen.Prelude.Int.{ℤ, abs_diff}
use vista_authen.Python.Strings.{str_len}
use vista_authen.Models.{Uuid, Checker, Resident, Db, Details, manager, active}
use vista_authen.Session.{World, Result, ok, raised}
use vista_authen.Session.Wp.{Wp, wp-pure, wp-query, wp-utcnow, wp-call, wp-if}
use vista_authen.Externals.{Externals}
use vista_authen.Config.{Settings}
use vista_authen.Rows.{get, checker_keyed, resident_keyed}
use vista_authen.Services.Access.{
  ScanResult, plain, extended, reject, reject_for, is_manager, admit, usable_key, decide,
  check_signature, check_resident, check_timestamp, check_id, check_fields, verify, seconds,
}
use vista_authen.Scans.Verifying.{usable_key_facts}

-- The checker of the scan is a manager.
pub record IsManagers (d : Db) (c : Uuid) : Type 0 where
  pub checker : Checker
  pub row : get c d.checkers ≡ some checker
  pub role : checker.role ≡ manager

-- An answer with a name is for a manager, and is the name and number of an active resident.
abbrev pub Discloses : Db → Uuid → Result ScanResult → World → Type 0
Discloses d c (ok (plain status)) v = Unit
Discloses d c (ok (extended status name unit phone)) v =
    IsManagers d c
    × ((i : Uuid) × (r : Resident) × (get i d.residents ≡ some r)
        × (r.status ≡ active)
        × (r.name ≡ name)
        × (r.phone ≡ phone))
Discloses d c (raised e) v = Unit

manages :
    (d : Db) (c : Uuid) (o : Option Checker)
    → get c d.checkers ≡ o
    → is_manager o ≡ true
    → IsManagers d c
unfolding is_manager
manages d c none e h = absurd (cc)
manages d c (some k) e h = record { checker = k; row = e; role = ground arith }

module _ (d : Db) (c : Uuid) where
  reject-Discloses :
      (action : String) (i : Option Uuid) (details : Details) (w : World)
      → Wp (reject action c i details) w (Discloses d c)
  unfolding reject
  reject-Discloses action i details w =
      wp-query _ _
        (wp-call _ _ {P = λ r v. Unit} (record { at = tt }) (λ l v h. wp-pure _ tt) (λ e v h. tt))

  reject_for-Discloses :
      (reason : String) (i : Option Uuid) (w : World) → Wp (reject_for reason c i) w (Discloses d c)
  unfolding reject_for
  reject_for-Discloses reason i w = reject-Discloses _ _ _ w

answer-Discloses :
    (d : Db) (c i : Uuid) (r : Resident) (unit : String) (b : Bool) (v : World)
    → (b ≡ true → IsManagers d c)
    → get i d.residents ≡ some r
    → r.status ≡ active
    → Discloses d c (ok (if b then extended "valid" r.name unit r.phone else plain "valid")) v
answer-Discloses d c i r unit true v m found on = (m refl, (i, r, found, on, refl, refl))
answer-Discloses d c i r unit false v m found on = tt

module _ (x : Externals) (w : World) (c i : Uuid) where
  admit-Discloses :
      (r : Resident)
      → get i w.db.residents ≡ some r
      → r.status ≡ active
      → Wp (admit c i r) w (Discloses w.db c)
  unfolding admit
  admit-Discloses r found on = wp-query _ _ (
      wp-call _ _ {P = λ r v. Unit} (record { at = tt })
        (λ l v h. wp-query _ _ (
          wp-pure _ (
            answer-Discloses w.db c i r _ (is_manager (get c w.db.checkers)) v
              (manages w.db c _ refl) found on)))
        (λ e v h. tt))

  decide-Discloses :
      (o : Result Bool) (r : Resident)
      → get i w.db.residents ≡ some r
      → r.status ≡ active
      → Wp (decide x o c i r) w (Discloses w.db c)
  unfolding decide
  decide-Discloses (ok true) r found on = admit-Discloses r found on
  decide-Discloses (ok false) r found on = reject_for-Discloses w.db c _ _ w
  decide-Discloses (raised e) r found on = reject-Discloses w.db c _ _ _ w

  check_signature-Discloses :
      (o : Option (List ℕ)) (r : Resident) (key payload : String)
      → get i w.db.residents ≡ some r
      → r.status ≡ active
      → Wp (check_signature x o c i r key payload) w (Discloses w.db c)
  unfolding check_signature
  check_signature-Discloses none r key payload found on = reject_for-Discloses w.db c _ _ w
  check_signature-Discloses (some bytes) r key payload found on = decide-Discloses _ r found on

  check_resident-Discloses :
      (o : Option (Resident × String)) (payload sig : String)
      → usable_key (get i w.db.residents) ≡ o
      → Wp (check_resident x o c i payload sig) w (Discloses w.db c)
  unfolding check_resident
  check_resident-Discloses none payload sig e = reject_for-Discloses w.db c _ _ w
  check_resident-Discloses (some (r, key)) payload sig e =
      let facts : (get i w.db.residents ≡ some r)
          × (r.status ≡ active)
          × (r.public_key ≡ some key) =
        usable_key_facts _ r key e in
      check_signature-Discloses _ r key payload facts.0 facts.1

module _ (x : Externals) (cfg : Settings) (w : World) (c : Uuid) where
  check_timestamp-Discloses :
      (o : Option ℤ) (i : Uuid) (payload sig : String)
      → Wp (check_timestamp x cfg o c i payload sig) w (Discloses w.db c)
  unfolding check_timestamp
  check_timestamp-Discloses none i payload sig = reject_for-Discloses w.db c _ _ w
  check_timestamp-Discloses (some t) i payload sig = wp-utcnow _ (
      wp-if (ltb cfg.qr_timestamp_tolerance_sec (abs_diff (seconds (w.clock 0)) t))
        (λ late. reject-Discloses w.db c _ _ _ _)
        (λ timely. wp-query _ _ (check_resident-Discloses x _ c i _ payload sig refl)))

  check_id-Discloses :
      (o : Option Uuid) (id t sig : String) → Wp (check_id x cfg o id t sig c) w (Discloses w.db c)
  unfolding check_id
  check_id-Discloses none id t sig = reject_for-Discloses w.db c _ _ w
  check_id-Discloses (some i) id t sig = check_timestamp-Discloses _ i _ sig

  check_fields-Discloses :
      (o : Option (String × String × String)) (qr : String)
      → Wp (check_fields x cfg o qr c) w (Discloses w.db c)
  unfolding check_fields
  check_fields-Discloses none qr = reject-Discloses w.db c _ _ _ w
  check_fields-Discloses (some (id, t, sig)) qr = check_id-Discloses _ id t sig

  wp-verify : (qr : String) → Wp (verify x cfg qr c) w (Discloses w.db c)
  unfolding verify
  wp-verify qr =
      wp-if (ltb 10240 (str_len qr)) (λ large. reject_for-Discloses w.db c _ _ w)
        (λ fits. check_fields-Discloses _ qr)

-- An answer that names a resident, with a unit and a telephone number, goes only to a checker who is a
-- manager, and the name and the number are those of an active resident.
pub verify-Discloses :
    (x : Externals) (cfg : Settings) (w : World) (c : Uuid) (qr : String)
    → Discloses w.db c (verify x cfg qr c w).0 (verify x cfg qr c w).1
verify-Discloses x cfg w c qr = (wp-verify x cfg w c qr).at
