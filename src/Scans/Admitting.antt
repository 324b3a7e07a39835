-- ===== src/Scans/Admitting.antt =====
-- A payload that lets a resident in is answered `valid`.
use vista_authen.Prelude.{suc, arith, ℕ, ◌≤◌, ◌≡◌, refl, String, true, false, Option, some, ltb}
use Prim.Native.String.{◌++◌}
use vista_authen.Models.{Uuid, Resident, AuditLog, Details, active, status_eq}
use vista_authen.Session.{World, Result, ok}
use vista_authen.Session.Wp.{
  Wp, wp-pure, wp-query, wp-utcnow, wp-if, wp-raise_if, wp-modify_last, wp-uuid4, wp-server_now,
  wp-call,
}
use vista_authen.Externals.{Externals}
use vista_authen.Config.{Settings}
use vista_authen.Rows.{has, unit_keyed, audit_log_keyed}
use vista_authen.Tables.{add_log, log_refused}
use vista_authen.Services.Logging.{log, log_scan_action}
use vista_authen.Services.Access.{
  ScanResult, status_of, admit, decide, check_signature, check_resident, check_timestamp, check_id,
  check_fields, verify, usable_key, fields_of, seconds,
}
use vista_authen.Scans.{abs_diff, str_len, Admits}
use vista_authen.Scans.Logging.{admit_status}

abbrev pub IsValidAnswer : Result ScanResult → Type 0
IsValidAnswer r = (res : ScanResult) × (r ≡ ok res) × (status_of res ≡ "valid")

abbrev Valid : Result ScanResult → World → Type 0
Valid r v = IsValidAnswer r

abbrev pub Written : {A : Type 0} → Result A → World → Type 0
Written {A} r v = (a : A) × (r ≡ ok a)

pub add_log-Written :
    (l : AuditLog) (w : World) → log_refused w.db l ≡ false → Wp (add_log l) w Written
unfolding add_log
add_log-Written l w fits =
    wp-query _ _ (wp-raise_if _ _ _ (λ e. wp-modify_last _ (tt, refl)) (λ refused. absurd (cc)))

log_scan_action-Written :
    (action : String) (c : Uuid) (r : Option Uuid) (u : Uuid) (details : Details) (w : World)
    → has (w.uuids 0) w.db.audit_logs ≡ false
    → has u w.db.units ≡ true
    → Wp (log_scan_action action c r (some u) details) w Written
unfolding log_scan_action log log_refused
log_scan_action-Written action c r u details w fresh home = wp-uuid4 _ (
    wp-server_now _ (
      wp-call _ _ (add_log-Written _ _ (unfold log_refused in ground arith))
        (λ a v h. wp-pure _ (_, refl)) (λ e v h. absurd (cc (h.1)))))

late_not_timely : (n m : ℕ) → ltb n m ≡ true → m ≤ n → ⊥
late_not_timely n m h k = ground arith

module _ (x : Externals) (cfg : Settings) (w : World) (c : Uuid) (qr : String) (r : Resident) where
  admit-Valid :
      (i : Uuid)
      → has (w.uuids 0) w.db.audit_logs ≡ false
      → has r.unit_id w.db.units ≡ true
      → Wp (admit c i r) (record w { clock = λ n. w.clock (suc n) }) Valid
  unfolding admit
  admit-Valid i fresh home = wp-query _ _ (
      wp-call _ _ (log_scan_action-Written _ _ _ _ _ _ fresh home)
        (λ l v h. wp-query _ _ (wp-pure _ (_, refl, admit_status _ _ _ _)))
        (λ e v h. absurd (cc (h.1))))

  usable :
      (key : String)
      → r.status ≡ active
      → r.public_key ≡ some key
      → usable_key (some r) ≡ some (r, key)
  unfolding usable_key
  usable key on has_key = ground arith

  module _ (a : Admits x cfg w.db (w.clock 0) qr r)
      (fresh : has (w.uuids 0) w.db.audit_logs ≡ false)
      (home : has r.unit_id w.db.units ≡ true) where
    check_timestamp-Valid :
        Wp
          (check_timestamp x cfg
            (some a.timestamp)
            c
            a.id
            (a.id_text ++ "|" ++ a.timestamp_text)
            a.signature_text)
          w
          Valid
    unfolding check_timestamp check_resident check_signature decide
    check_timestamp-Valid = wp-utcnow _ (
        (wp-if (ltb cfg.qr_timestamp_tolerance_sec (abs_diff (seconds (w.clock 0)) a.timestamp))
          (λ late. absurd (late_not_timely _ _ late a.timely))
          (λ timely. wp-query _ _ (
            rw
              (
                a.found,
                usable a.signed.key a.signed.is_active a.signed.has_key,
                a.signed.decodes,
                a.signed.verifies,
              )
              (admit-Valid a.id fresh home)))))

    verify-Valid : Wp (verify x cfg qr c) w Valid
    unfolding verify check_fields fields_of check_id
    verify-Valid =
        wp-if (ltb 10240 (str_len qr)) (λ large. absurd (late_not_timely _ _ large a.size))
          (λ fits. rw a.parts (rw (a.id_parses, a.timestamp_parses) check_timestamp-Valid))

-- A payload that lets a resident in at the next reading of the clock is answered `valid`, where the
-- key of the audit entry is new and the resident's unit is there.
pub verify-Admits :
    (x : Externals) (cfg : Settings) (w : World) (c : Uuid) (qr : String) (r : Resident)
    → Admits x cfg w.db (w.clock 0) qr r
    → has (w.uuids 0) w.db.audit_logs ≡ false
    → has r.unit_id w.db.units ≡ true
    → IsValidAnswer (verify x cfg qr c w).0
verify-Admits x cfg w c qr r a fresh home = (verify-Valid x cfg w c qr r a fresh home).at
