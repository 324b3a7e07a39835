-- ===== src/Lifecycle/Scans.antt =====
-- A scan makes only changes that the specification allows.
use vista_authen.Prelude.{ℕ, String, Bool, true, false, Option, none, some, List, ltb}
use vista_authen.Prelude.Int.{ℤ, abs_diff}
use vista_authen.Models.{Uuid, Db, Resident, Details}
use vista_authen.Session.{World, Result, ok, raised}
use vista_authen.Session.Wp.{Wp, wp-pure, wp-query, wp-utcnow, wp-if}
use vista_authen.Externals.{Externals}
use vista_authen.Config.{Settings}
use vista_authen.Services.Access.{
  reject, reject_for, admit, decide, check_signature, check_resident, check_timestamp, check_id,
  check_fields, verify, seconds,
}
use vista_authen.Python.Strings.{str_len}
use vista_authen.Lifecycle.Logs.{and_then, At, Reaches, log_scan_action-Reach}

module _ {d : Db} {w : World} (so_far : At d w) where
  reject-Reach :
      (action : String) (c : Uuid) (r : Option Uuid) (details : Details)
      → Wp (reject action c r details) w (Reaches d)
  unfolding reject
  reject-Reach action c r details =
      wp-query _ _ (and_then _ _ (log_scan_action-Reach so_far _ _ _ _ _) (λ a v h. wp-pure _ h))

  reject_for-Reach :
      (reason : String) (c : Uuid) (r : Option Uuid) → Wp (reject_for reason c r) w (Reaches d)
  unfolding reject_for
  reject_for-Reach reason c r = reject-Reach _ _ _ _

  admit-Reach : (c i : Uuid) (r : Resident) → Wp (admit c i r) w (Reaches d)
  unfolding admit
  admit-Reach c i r =
      wp-query _ _ (
        and_then _ _ (log_scan_action-Reach so_far _ _ _ _ _) (λ a v h. wp-query _ _ (wp-pure _ h)))

  module _ (x : Externals) where
    decide-Reach :
        (o : Result Bool) (c i : Uuid) (r : Resident) → Wp (decide x o c i r) w (Reaches d)
    unfolding decide
    decide-Reach (ok true) c i r = admit-Reach c i r
    decide-Reach (ok false) c i r = reject_for-Reach _ _ _
    decide-Reach (raised e) c i r = reject-Reach _ _ _ _

    check_signature-Reach :
        (o : Option (List ℕ)) (c i : Uuid) (r : Resident) (key payload : String)
        → Wp (check_signature x o c i r key payload) w (Reaches d)
    unfolding check_signature
    check_signature-Reach none c i r key payload = reject_for-Reach _ _ _
    check_signature-Reach (some signature) c i r key payload = decide-Reach _ c i r

    check_resident-Reach :
        (o : Option (Resident × String)) (c i : Uuid) (payload sig : String)
        → Wp (check_resident x o c i payload sig) w (Reaches d)
    unfolding check_resident
    check_resident-Reach none c i payload sig = reject_for-Reach _ _ _
    check_resident-Reach (some (r, key)) c i payload sig = check_signature-Reach _ c i r key payload

module _ {d : Db} {w : World} (so_far : At d w) (x : Externals) (cfg : Settings) where
  check_timestamp-Reach :
      (t : Option ℤ) (c i : Uuid) (payload sig : String)
      → Wp (check_timestamp x cfg t c i payload sig) w (Reaches d)
  unfolding check_timestamp
  check_timestamp-Reach none c i payload sig = reject_for-Reach so_far _ _ _
  check_timestamp-Reach (some t) c i payload sig = wp-utcnow _ (
      wp-if (ltb cfg.qr_timestamp_tolerance_sec (abs_diff (seconds (w.clock 0)) t))
        (λ late. reject-Reach so_far _ _ _ _)
        (λ timely. wp-query _ _ (check_resident-Reach so_far x _ c i payload sig)))

  check_id-Reach :
      (o : Option Uuid) (id t sig : String) (c : Uuid)
      → Wp (check_id x cfg o id t sig c) w (Reaches d)
  unfolding check_id
  check_id-Reach none id t sig c = reject_for-Reach so_far _ _ _
  check_id-Reach (some i) id t sig c = check_timestamp-Reach _ c i _ sig

  check_fields-Reach :
      (o : Option (String × String × String)) (qr : String) (c : Uuid)
      → Wp (check_fields x cfg o qr c) w (Reaches d)
  unfolding check_fields
  check_fields-Reach none qr c = reject-Reach so_far _ _ _ _
  check_fields-Reach (some (id, t, sig)) qr c = check_id-Reach _ id t sig c

  pub verify-Reach : (qr : String) (c : Uuid) → Wp (verify x cfg qr c) w (Reaches d)
  unfolding verify
  verify-Reach qr c =
      wp-if (ltb 10240 (str_len qr)) (λ large. reject_for-Reach so_far _ _ _)
        (λ fits. check_fields-Reach _ qr c)
