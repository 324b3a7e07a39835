-- ===== src/Scans.antt =====
-- What a scan promises (app/services/access_service.py), independently of the order of its checks.
pub mod Outcome
pub mod Logging
pub mod Verifying
pub mod Statuses
pub mod Answering
pub mod Admitting
pub mod Disclosing
pub mod Signatures
use Prim.Native.String.{◌++◌}
use vista_authen.Prelude.{ℕ, ◌≤◌, ◌≡◌, String, true, Option, some, List, [], ◌∷◌}
use vista_authen.Prelude.Int.{ℤ, abs_diff}
use vista_authen.Models.{Uuid, Resident, Db, active}
use vista_authen.Session.{ok}
use vista_authen.Externals.{Externals}
use vista_authen.Config.{Settings}
use vista_authen.Python.Strings.{str_len, split}
use vista_authen.Python.Numbers.{parse_int}
use vista_authen.Python.UuidText.{parse_uuid}
use vista_authen.Python.Base64.{b64decode}
use vista_authen.Rows.{get, resident_keyed}
use vista_authen.Services.Access.{seconds}
use vista_authen.Services.Crypto.{verify_signature}

-- The resident is active and holds a key under which the signature of `payload` verifies.
pub record Signs (x : Externals) (r : Resident) (payload signature_b64 : String) : Type 0 where
  pub is_active : r.status ≡ active
  pub key : String
  pub has_key : r.public_key ≡ some key
  pub signature : List ℕ
  pub decodes : b64decode signature_b64 ≡ some signature
  pub verifies : verify_signature x key payload signature ≡ ok true

-- A payload `V1|id|timestamp|signature` lets resident `r` in: the timestamp is within the tolerance
-- of the reading `now`, and the resident of that id signed `id|timestamp`.
pub record Admits (x : Externals) (cfg : Settings) (d : Db) (now : ℕ) (qr : String) (r : Resident)
    : Type 0 where
  pub size : str_len qr ≤ 10240
  pub id_text : String
  pub timestamp_text : String
  pub signature_text : String
  pub parts : split b'|' qr ≡ "V1" ∷ id_text ∷ timestamp_text ∷ signature_text ∷ []
  pub id : Uuid
  pub id_parses : parse_uuid id_text ≡ some id
  pub timestamp : ℤ
  pub timestamp_parses : parse_int 10 timestamp_text ≡ some timestamp
  pub timely : abs_diff (seconds now) timestamp ≤ cfg.qr_timestamp_tolerance_sec
  pub found : get id d.residents ≡ some r
  pub signed : Signs x r (id_text ++ "|" ++ timestamp_text) signature_text
