-- ===== src/Services/Access.antt =====
-- app/services/access_service.py
use Prim.Native.String.{◌++◌}
use vista_authen.Prelude.{
  ℕ, ◌/◌, String, Bool, true, false, not, Option, none, some, List, [], ◌∷◌, ◌==◌, ℕ_eq, String_eq,
  ltb, if◌then◌else◌,
}
use vista_authen.Prelude.Int.{ℤ, pos, abs_diff}
use vista_authen.Models.{
  Uuid, Resident, Checker, BuildingUnit, Db, Json, Details, active, manager, status_eq,
  checker_role_eq, checker_role_value,
}
use vista_authen.Session.{
  Exn, library_error, M, Result, ok, raised, pure, query, utcnow, ◌>>=◌, ◌>>◌,
}
use vista_authen.Python.Strings.{str_len, split, prefix}
use vista_authen.Python.Numbers.{parse_int}
use vista_authen.Python.UuidText.{parse_uuid}
use vista_authen.Python.Base64.{b64decode}
use vista_authen.Config.{Settings}
use vista_authen.Externals.{Externals}
use vista_authen.Rows.{get, unit_keyed, resident_keyed, checker_keyed}
use vista_authen.Services.Crypto.{verify_signature}
use vista_authen.Services.Logging.{log_scan_action}

-- the dictionaries that `verify` returns: a status alone, or a manager's view
pub data ScanResult : Type 0 where
  plain : String → ScanResult
  extended : (status resident_name unit : String) (phone : Option String) → ScanResult

abbrev pub status_of : ScanResult → String
status_of (plain status) = status
status_of (extended status name unit phone) = status

unfoldable pub unit_of : Option Uuid → Db → Option Uuid
unit_of none d = none
unit_of (some i) d = elim (get i d.residents) [ none ↦ none | some r ↦ some r.unit_id ]

-- AccessService._reject
unfoldable pub reject : String → Uuid → Option Uuid → Details → M ScanResult
reject action checker_id resident_id details = do
  unit_id ← query (unit_of resident_id)
  log_scan_action action checker_id resident_id unit_id details
  pure (plain (if action == "scan_failed_expired" then "expired" else "invalid"))

unfoldable pub reject_for : String → Uuid → Option Uuid → M ScanResult
reject_for reason checker_id resident_id =
    reject "scan_failed_bad_signature" checker_id resident_id (("reason", Json.text reason) ∷ [])

-- the four parts of a payload of version V1
unfoldable pub fields_of : List String → Option (String × String × String)
fields_of (version ∷ resident_id ∷ timestamp ∷ signature ∷ []) =
    if version == "V1" then some (resident_id, timestamp, signature) else none
fields_of _ = none

unfoldable pub role_details : Option Checker → Json
role_details none = Json.null
role_details (some checker) = Json.text (checker_role_value checker.role)

unfoldable pub is_manager : Option Checker → Bool
is_manager none = false
is_manager (some checker) = checker.role == manager

abbrev unit_name : Option BuildingUnit → String
unit_name none = "Unknown"
unit_name (some unit) = unit.unit_number

-- the success path
unfoldable pub admit : Uuid → Uuid → Resident → M ScanResult
admit checker_id resident_id resident = do
  checker ← query (λ d. get checker_id d.checkers)
  log_scan_action "scan_success" checker_id (some resident_id) (some resident.unit_id)
      (("checker_role", role_details checker) ∷ [])
  unit ← query (λ d. get resident.unit_id d.units)
  pure (
      if is_manager checker
      then extended "valid" resident.name (unit_name unit) resident.phone
      else plain "valid")

-- the key of a resident who may enter
unfoldable pub usable_key : Option Resident → Option (Resident × String)
usable_key none = none
usable_key (some r) =
    if not (r.status == active)
    then none
    else elim r.public_key [ none ↦ none | some key ↦ some (r, key) ]

-- `int(datetime.timestamp())`, for an instant after the epoch
abbrev pub seconds : ℕ → ℕ
seconds now = now / 1000000

-- `str(e)`
abbrev message_of : Exn → String
message_of (library_error message) = message
message_of _ = ""

module _ (x : Externals) where
  unfoldable pub decide : Result Bool → Uuid → Uuid → Resident → M ScanResult
  decide (raised e) checker_id resident_id resident =
      reject "scan_failed_bad_signature" checker_id (some resident_id) (
        ("reason", Json.text "signature_verification_error")
        ∷ ("error", Json.text (message_of e))
        ∷ [])
  decide (ok false) checker_id resident_id resident =
      reject_for "signature_verification_failed" checker_id (some resident_id)
  decide (ok true) checker_id resident_id resident = admit checker_id resident_id resident

  unfoldable pub check_signature :
      Option (List ℕ) → Uuid → Uuid → Resident → String → String → M ScanResult
  check_signature none checker_id resident_id resident key payload =
      reject_for "invalid_signature_encoding" checker_id (some resident_id)
  check_signature (some signature) checker_id resident_id resident key payload =
      decide (verify_signature x key payload signature) checker_id resident_id resident

  unfoldable pub check_resident :
      Option (Resident × String) → Uuid → Uuid → String → String → M ScanResult
  check_resident none checker_id resident_id payload signature_b64 =
      reject_for "resident_not_active" checker_id (some resident_id)
  check_resident (some (resident, key)) checker_id resident_id payload signature_b64 =
      check_signature (b64decode signature_b64) checker_id resident_id resident key payload

  unfoldable pub check_timestamp :
      Settings → Option ℤ → Uuid → Uuid → String → String → M ScanResult
  check_timestamp cfg none checker_id resident_id payload signature_b64 =
      reject_for "invalid_timestamp" checker_id none
  check_timestamp cfg (some timestamp) checker_id resident_id payload signature_b64 = do
    now ← utcnow
    if ltb cfg.qr_timestamp_tolerance_sec (abs_diff (seconds now) timestamp)
        then reject "scan_failed_expired" checker_id (some resident_id) (
            ("timestamp", Json.num timestamp)
            ∷ ("server_time", Json.num (pos (seconds now)))
            ∷ ("diff", Json.num (pos (abs_diff (seconds now) timestamp)))
            ∷ [])
        else (do
          resident ← query (λ d. get resident_id d.residents)
          check_resident (usable_key resident) checker_id resident_id payload signature_b64)

  unfoldable pub check_id : Settings → Option Uuid → String → String → String → Uuid → M ScanResult
  check_id cfg none resident_id timestamp signature_b64 checker_id =
      reject_for "invalid_resident_id" checker_id none
  check_id cfg (some id) resident_id timestamp signature_b64 checker_id =
      check_timestamp cfg (parse_int 10 timestamp) checker_id id (resident_id ++ "|" ++ timestamp)
        signature_b64

  unfoldable pub check_fields :
      Settings → Option (String × String × String) → String → Uuid → M ScanResult
  check_fields cfg none qr_payload checker_id = reject "scan_failed_bad_signature" checker_id none (
      ("reason", Json.text "invalid_format")
      ∷ ("payload_prefix", Json.text (prefix 50 qr_payload))
      ∷ [])
  check_fields cfg (some (resident_id, timestamp, signature_b64)) qr_payload checker_id =
      check_id cfg (parse_uuid resident_id) resident_id timestamp signature_b64 checker_id

  -- AccessService.verify
  unfoldable pub verify : Settings → String → Uuid → M ScanResult
  verify cfg qr_payload checker_id =
      if ltb 10240 (str_len qr_payload)
      then reject_for "payload_too_large" checker_id none
      else check_fields cfg (fields_of (split b'|' qr_payload)) qr_payload checker_id
