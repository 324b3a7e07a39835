-- ===== src/Scans/Answering.antt =====
-- A scan answers with the status that its payload deserves.
use vista_authen.Prelude.{
  ℕ, ◌≡◌, refl, String, Bool, true, false, Option, some, none, List, ◌∷◌, ◌==◌, String_eq, ltb,
  if◌then◌else◌, Bool-cases, Option-cases, inl, inr, ap,
}
use vista_authen.Prelude.Int.{ℤ, abs_diff}
use Prim.Native.String.{◌++◌}
use vista_authen.Models.{Uuid, Resident, AuditLog, Db, Details, active, status_eq}
use vista_authen.Session.{World, Result, ok, raised, integrity_error}
use vista_authen.Session.Wp.{Wp, wp-query, wp-utcnow, wp-if, wp-call, wp-pure}
use vista_authen.Externals.{Externals}
use vista_authen.Config.{Settings}
use vista_authen.Rows.{resident_keyed}
use vista_authen.Python.Strings.{str_len}
use vista_authen.Python.Numbers.{parse_int}
use vista_authen.Python.UuidText.{parse_uuid}
use vista_authen.Services.Access.{
  ScanResult, status_of, reject, reject_for, admit, decide, check_signature, check_resident,
  check_timestamp, check_id, check_fields, verify, usable_key, seconds,
}
use vista_authen.Scans.Logging.{log_scan_action-Wrote, admit_status}
use vista_authen.Scans.Statuses.{
  ScanStatus, valid, expired, invalid, status_text, status_action, claim_for, claim_of,
  read_payload, holds, is_signed_with, is_signed_by, claim_status, scan_status,
}

-- The scan answers with a status, and its audit entry has that status's action.
abbrev pub Answers : ScanStatus → Db → Result ScanResult → World → Type 0
Answers s d (ok res) v =
    (status_of res ≡ status_text s)
    × (l : AuditLog) × (v.db.audit_logs ≡ l ∷ d.audit_logs)
    × (l.action ≡ status_action s)
Answers s d (raised e) v = e ≡ integrity_error

module _ (w : World) (c : Uuid) where
  reject-Answers :
      (r : Option Uuid) (details : Details)
      → Wp (reject "scan_failed_bad_signature" c r details) w (Answers invalid w.db)
  unfolding reject
  reject-Answers r details = wp-query _ _ (
      wp-call _ _ (log_scan_action-Wrote _ c r _ details w)
        (λ l v h. wp-pure _ (refl, l, ap (λ d. d.audit_logs) h.0, h.3)) (λ e v h. h.0))

  late-Answers :
      (r : Option Uuid) (details : Details)
      → Wp (reject "scan_failed_expired" c r details) w (Answers expired w.db)
  unfolding reject
  late-Answers r details = wp-query _ _ (
      wp-call _ _ (log_scan_action-Wrote _ c r _ details w)
        (λ l v h. wp-pure _ (refl, l, ap (λ d. d.audit_logs) h.0, h.3)) (λ e v h. h.0))

  reject_for-Answers :
      (reason : String) (r : Option Uuid) → Wp (reject_for reason c r) w (Answers invalid w.db)
  unfolding reject_for
  reject_for-Answers reason r = reject-Answers r _

  admit-Answers : (i : Uuid) (r : Resident) → Wp (admit c i r) w (Answers valid w.db)
  unfolding admit
  admit-Answers i r = wp-query _ _ (
      wp-call _ _ (log_scan_action-Wrote "scan_success" c _ _ _ w)
        (λ l v h.
          wp-query _ _ (wp-pure _ (admit_status _ _ _ _, l, ap (λ d. d.audit_logs) h.0, h.3)))
        (λ e v h. h.0))

  module _ (x : Externals) (i : Uuid) where
    decide-Answers :
        (o : Result Bool) (r : Resident)
        → Wp (decide x o c i r) w (Answers (if holds o then valid else invalid) w.db)
    unfolding decide
    decide-Answers (ok true) r = admit-Answers i r
    decide-Answers (ok false) r = reject_for-Answers _ _
    decide-Answers (raised e) r = reject-Answers _ _

    check_signature-Answers :
        (o : Option (List ℕ)) (r : Resident) (key message : String)
        → Wp
            (check_signature x o c i r key message)
            w
            (Answers (if is_signed_with x key message o then valid else invalid) w.db)
    unfolding check_signature is_signed_with
    check_signature-Answers none r key message = reject_for-Answers _ _
    check_signature-Answers (some s) r key message = decide-Answers _ r

    check_resident-Answers :
        (o : Option Resident) (message sig : String)
        → Wp
            (check_resident x (usable_key o) c i message sig)
            w
            (Answers (if is_signed_by x o message sig then valid else invalid) w.db)
    unfolding check_resident usable_key is_signed_by
    check_resident-Answers none message sig = reject_for-Answers _ _
    check_resident-Answers (some r) message sig = elim (Bool-cases (r.status == active)) [
      | inr off ↦ rw off (reject_for-Answers _ _)
      | inl on ↦ elim (Option-cases r.public_key) [
        | inl no_key ↦ rw (on, no_key) (reject_for-Answers _ _)
        | inr (key, has_key) ↦ rw (on, has_key) (check_signature-Answers _ r key message)
      ]
    ]

module _ (x : Externals) (cfg : Settings) (w : World) (c : Uuid) where
  check_timestamp-Answers :
      (o : Option ℤ) (i : Uuid) (id t sig : String)
      → Wp
          (check_timestamp x cfg o c i (id ++ "|" ++ t) sig)
          w
          (Answers (claim_status x cfg w.db (w.clock 0) (claim_for (some i) o id t sig)) w.db)
  unfolding check_timestamp claim_for claim_status
  check_timestamp-Answers none i id t sig = reject_for-Answers w c _ _
  check_timestamp-Answers (some n) i id t sig = wp-utcnow _ (
      wp-if (ltb cfg.qr_timestamp_tolerance_sec (abs_diff (seconds (w.clock 0)) n))
        (λ late. rw late (late-Answers _ c _ _))
        (λ timely. rw timely (wp-query _ _ (check_resident-Answers _ c x i _ _ sig))))

  check_id-Answers :
      (o : Option Uuid) (id t sig : String)
      → Wp (check_id x cfg o id t sig c) w (
          Answers
            (claim_status x cfg w.db (w.clock 0) (claim_for o (parse_int 10 t) id t sig))
            w.db)
  unfolding check_id claim_for claim_status
  check_id-Answers none id t sig = reject_for-Answers w c _ _
  check_id-Answers (some i) id t sig = check_timestamp-Answers (parse_int 10 t) i id t sig

  check_fields-Answers :
      (o : Option (String × String × String)) (qr : String)
      → Wp
          (check_fields x cfg o qr c)
          w
          (Answers (claim_status x cfg w.db (w.clock 0) (claim_of o)) w.db)
  unfolding check_fields claim_of claim_status
  check_fields-Answers none qr = reject-Answers w c _ _
  check_fields-Answers (some (id, t, sig)) qr = check_id-Answers (parse_uuid id) id t sig

  verify-Answers :
      (qr : String)
      → Wp (verify x cfg qr c) w (Answers (scan_status x cfg w.db (w.clock 0) qr) w.db)
  unfolding verify read_payload claim_status
  verify-Answers qr =
      wp-if (ltb 10240 (str_len qr)) (λ large. rw large (reject_for-Answers w c _ _))
        (λ fits. rw fits (check_fields-Answers _ qr))

-- A scan that returns answers with the status that the payload deserves: invalid for a payload that
-- is too large or cannot be read, expired where the timestamp is out of tolerance, valid where an
-- active resident of that id has signed it, and invalid otherwise; the action of its new audit entry
-- is that of the status. A scan that raises does so because the database refused the entry.
pub verify-scan_status :
    (x : Externals) (cfg : Settings) (w : World) (c : Uuid) (qr : String)
    → Answers
        (scan_status x cfg w.db (w.clock 0) qr)
        w.db
        (verify x cfg qr c w).0
        (verify x cfg qr c w).1
verify-scan_status x cfg w c qr = (verify-Answers x cfg w c qr).at
