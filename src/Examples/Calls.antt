-- ===== src/Examples/Calls.antt =====
-- Ids, keys and signatures of the small building.
use vista_authen.Prelude.{◌≡◌, refl, some, arith}
use vista_authen.Session.{ok}
use vista_authen.Config.{settings}
use vista_authen.Externals.{ecdsa_sha256}
use vista_authen.Models.{Json}
use vista_authen.Security.{lookup}
use vista_authen.Deps.{uuid_claim}
use vista_authen.Limiter.{Caller, get_checker_rate_limit_key}
use vista_authen.Limiter.Keys.{Counts, get_checker_rate_limit_key-Counts}
use vista_authen.Routes.Http.{uuid_arg}
use vista_authen.Routes.Units.{read_unit}
use vista_authen.Routes.Residents.{map_resident}
use vista_authen.Routes.Staff.{read_checker, claims}
use vista_authen.Routes.Ids.{ids_return}
use vista_authen.Services.Crypto.{verify_signature, accepted}
use vista_authen.Scans.Signatures.{raw_signature, verify_signature-raw}
use vista_authen.Examples.{programs, morning, flat, owner, porter}

ids_return_example :
    (uuid_arg (read_unit 2 flat).id morning ≡ (ok 1, morning))
    × (uuid_arg (map_resident owner).id morning ≡ (ok 6, morning))
    × (uuid_arg (map_resident owner).unit_id morning ≡ (ok 1, morning))
    × (uuid_arg (read_checker porter).id morning ≡ (ok 9, morning))
    × ((sub : Json) × (lookup "sub" (claims 9 "guard" "checker") ≡ some sub)
        × (uuid_claim sub morning ≡ (ok 9, morning)))
ids_return_example =
    ids_return flat owner porter 2 "guard" "checker" morning (omega arith) (omega arith)
      (omega arith) (omega arith)

abbrev at_gate : Caller
at_gate = record { authorization = some "Bearer admin token"; address = "10.0.0.2" }

get_checker_rate_limit_key-Counts_example :
    Counts programs settings morning at_gate
      (get_checker_rate_limit_key programs settings at_gate morning).0
      (get_checker_rate_limit_key programs settings at_gate morning).1
get_checker_rate_limit_key-Counts_example =
    get_checker_rate_limit_key-Counts programs settings at_gate morning

verify_signature-raw_example :
    verify_signature programs "pem" "V1|payload" (raw_signature 258 3)
    ≡ ok (
        accepted
          (programs.verify tt (programs.encode_dss_signature 258 3) "V1|payload" ecdsa_sha256))
verify_signature-raw_example =
    verify_signature-raw 258 3 (omega arith) (omega arith) programs "pem" "V1|payload" tt refl refl
