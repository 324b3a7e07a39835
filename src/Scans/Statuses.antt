-- ===== src/Scans/Statuses.antt =====
-- The answer of a scan as a function of the payload, the residents and the time.
use vista_authen.Prelude.{
  ℕ, String, Bool, false, ◌&&◌, Option, some, none, List, ◌==◌, String_eq, ltb, if◌then◌else◌,
}
use vista_authen.Prelude.Int.{ℤ, abs_diff}
use Prim.Native.String.{◌++◌}
use vista_authen.Models.{Uuid, Resident, Db, active, status_eq}
use vista_authen.Session.{Result, ok, raised}
use vista_authen.Externals.{Externals}
use vista_authen.Config.{Settings}
use vista_authen.Rows.{get, resident_keyed}
use vista_authen.Python.Strings.{str_len, split}
use vista_authen.Python.Numbers.{parse_int}
use vista_authen.Python.UuidText.{parse_uuid}
use vista_authen.Python.Base64.{b64decode}
use vista_authen.Services.Crypto.{verify_signature}
use vista_authen.Services.Access.{fields_of, seconds}

pub data ScanStatus : Type 0 where
  valid expired invalid : ScanStatus

abbrev pub status_text : ScanStatus → String
status_text valid = "valid"
status_text expired = "expired"
status_text invalid = "invalid"

-- the action of the audit entry
abbrev pub status_action : ScanStatus → String
status_action valid = "scan_success"
status_action expired = "scan_failed_expired"
status_action invalid = "scan_failed_bad_signature"

-- What a payload says.
pub record Claim : Type 0 where
  pub id : Uuid
  pub timestamp : ℤ
  pub message : String
  pub signature_text : String

-- the claim of three fields, of which the first two must be an id and a number
unfoldable pub claim_for : Option Uuid → Option ℤ → String → String → String → Option Claim
claim_for (some id) (some timestamp) i t signature_text = some (record {
  id = id;
  timestamp = timestamp;
  message = i ++ "|" ++ t;
  signature_text = signature_text;
})
claim_for none timestamp i t signature_text = none
claim_for (some id) none i t signature_text = none

unfoldable pub claim_of : Option (String × String × String) → Option Claim
claim_of none = none
claim_of (some (i, t, s)) = claim_for (parse_uuid i) (parse_int 10 t) i t s

unfoldable pub read_payload : String → Option Claim
read_payload qr = if ltb 10240 (str_len qr) then none else claim_of (fields_of (split b'|' qr))

abbrev pub holds : Result Bool → Bool
holds (ok b) = b
holds (raised e) = false

module _ (x : Externals) where
  unfoldable pub is_signed_with : String → String → Option (List ℕ) → Bool
  is_signed_with key message none = false
  is_signed_with key message (some signature) = holds (verify_signature x key message signature)

  -- an active resident with a key has signed the message
  unfoldable pub is_signed_by : Option Resident → String → String → Bool
  is_signed_by none message signature_text = false
  is_signed_by (some r) message signature_text = r.status == active && elim r.public_key [
    | none ↦ false
    | some key ↦ is_signed_with key message (b64decode signature_text)
  ]

  unfoldable pub claim_status : Settings → Db → ℕ → Option Claim → ScanStatus
  claim_status cfg d now none = invalid
  claim_status cfg d now (some p) =
      if ltb cfg.qr_timestamp_tolerance_sec (abs_diff (seconds now) p.timestamp)
      then expired
      else if is_signed_by (get p.id d.residents) p.message p.signature_text
      then valid
      else invalid

  -- the status that a payload deserves
  abbrev pub scan_status : Settings → Db → ℕ → String → ScanStatus
  scan_status cfg d now qr = claim_status cfg d now (read_payload qr)
