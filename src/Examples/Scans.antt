-- ===== src/Examples/Scans.antt =====
-- Scans at the door of the small building.
use vista_authen.Session.{World}
use vista_authen.Models.{manager}
use vista_authen.Scans.Disclosing.{Discloses, verify-Discloses}
use vista_authen.Prelude.{refl, [], ◌∷◌, arith, String_eq}
use vista_authen.Prelude.Int.{pos}
use vista_authen.Models.{Resident}
use vista_authen.Config.{settings}
use vista_authen.Rows.{unit_keyed, get, has}
use vista_authen.Python.Strings.{split}
use vista_authen.Python.Numbers.{parse_int}
use vista_authen.Python.UuidText.{parse_uuid}
use vista_authen.Python.Base64.{b64decode}
use vista_authen.Services.Crypto.{verify_signature}
use vista_authen.Services.Access.{verify}
use vista_authen.Scans.{Admits}
use vista_authen.Scans.Outcome.{Ends}
use vista_authen.Scans.Verifying.{verify_outcome}
use vista_authen.Scans.Admitting.{IsValidAnswer, verify-Admits}
use vista_authen.Scans.Statuses.{scan_status}
use vista_authen.Scans.Answering.{Answers, verify-scan_status}
use vista_authen.Examples.{porter, programs, owner, building, morning, code}

code-Admits : Admits programs settings building 0 code owner
unfolding split parse_uuid parse_int b64decode verify_signature get
code-Admits = record {
  size = ground arith;
  id_text = "00000000000000000000000000000006";
  timestamp_text = "0";
  signature_text = "TWE=";
  parts = refl;
  id = 6;
  id_parses = refl;
  timestamp = pos 0;
  timestamp_parses = refl;
  timely = ground arith;
  found = refl;
  signed = record {
    is_active = refl;
    key = "pem";
    has_key = refl;
    signature = 77 ∷ 97 ∷ [];
    decodes = refl;
    verifies = refl;
  };
}

verify_outcome_example :
    Ends 9 building
      ((r : Resident) × Admits programs settings building 0 code r)
      (verify programs settings code 9 morning).0
      (verify programs settings code 9 morning).1
verify_outcome_example = verify_outcome programs settings morning 9 code

verify-Admits_example : IsValidAnswer (verify programs settings code 9 morning).0
unfolding has
verify-Admits_example = verify-Admits programs settings morning 9 code owner code-Admits refl refl

-- the same morning, with a manager at the door
abbrev managed : World
managed = record morning {
  db = record building { checkers = record porter { role = manager } ∷ [] };
}

verify-Discloses_example :
    Discloses managed.db 9
      (verify programs settings code 9 managed).0
      (verify programs settings code 9 managed).1
verify-Discloses_example = verify-Discloses programs settings managed 9 code

verify-scan_status_example :
    Answers
      (scan_status programs settings building 0 code)
      building
      (verify programs settings code 9 morning).0
      (verify programs settings code 9 morning).1
verify-scan_status_example = verify-scan_status programs settings morning 9 code
