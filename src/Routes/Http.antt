-- ===== src/Routes/Http.antt =====
-- What the endpoints share: the 422 of a body, `except ValueError`, the
-- 404 of a missing row, and the session of a request.
use vista_authen.Prelude.{ℕ, String, Bool, not, Option}
use vista_authen.Models.{Uuid}
use vista_authen.Session.{
  M, World, Result, ok, raised, value_error, http, require, raise_if, bad_uuid,
}
use vista_authen.Python.UuidText.{parse_uuid}

unfoldable pub validate : Bool → M (Unit {0})
validate fits = raise_if (not fits) (http 422)

abbrev pub bad_request : {A : Type 0} → Result A → Result A
bad_request (ok a) = ok a
bad_request (raised (value_error r)) = raised (http 400)
bad_request (raised e) = raised e

-- `except ValueError as e: raise HTTPException(400)`
unfoldable pub or_bad_request : {A : Type 0} → M A → M A
or_bad_request m w = let (r, v) = m w in (bad_request r, v)

-- `if row is None: raise HTTPException(404)`
unfoldable pub or_not_found : {A : Type 0} → Option A → M A
or_not_found row = require row (http 404)

-- `uuid.UUID(text)` of a path or body
unfoldable pub uuid_arg : String → M Uuid
uuid_arg s = require (parse_uuid s) (value_error bad_uuid)

-- The end of a request: commit when the endpoint returns, roll back when it raises.
unfoldable pub settle : {A : Type 0} → Result A → World → Result A × World
settle (ok a) w = (ok a, record w { committed = w.db })
settle (raised e) w = (raised e, record w { db = w.committed })

-- get_db
unfoldable pub with_session : {A : Type 0} → M A → M A
unfolding settle
with_session m w = let (r, v) = m (record w { db = w.committed }) in settle r v

-- the status code of a response: the endpoint's own, an HTTPException's, or 500
abbrev pub status_code : {A : Type 0} → ℕ → Result A → ℕ
status_code success (ok a) = success
status_code success (raised (http code)) = code
status_code success (raised e) = 500
