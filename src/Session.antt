-- ===== src/Session.antt =====
-- app/core/database.py: an operation runs in a session, may raise, and reads the clock and the
-- random sources. What it wrote before it raised stays written until the session rolls back.
pub mod Reads
pub mod Quiet
pub mod Accounting
pub mod Wp
use vista_authen.Prelude.{String, ℕ, zero, suc, Bool, true, false, Option, none, some}
use vista_authen.Models.{Uuid, ResidentStatus, DateTime, AuditLog, Db}

-- the `ValueError`s that the services raise, by their messages
pub data Reason : Type 0 where
  unit_not_found : Uuid → Reason
  at_capacity : String → ℕ → ℕ → Reason
  owner_needs_contact contact_is_owner_only : Reason
  invalid_token token_already_used token_expired resident_not_found : Reason
  not_pending : ResidentStatus → Reason
  contact_update_is_owner_only empty_phone empty_email : Reason
  capacity_below_count : ℕ → ℕ → Reason
  residents_assigned : ℕ → Reason
  username_taken : String → Reason
  unhashable_password : Reason
  bad_uuid bad_number bad_base64 : Reason

-- What Python raises. `integrity_error` and `multiple_results` are the database's,
-- `http` is FastAPI's HTTPException with its status code, `library_error` is any other, with its text.
pub data Exn : Type 0 where
  value_error : Reason → Exn
  http : ℕ → Exn
  integrity_error multiple_results type_error : Exn
  library_error : String → Exn

pub data Result (A : Type 0) : Type 0 where
  ok : A → Result A
  raised : Exn → Result A

-- `db` is what the session sees, `committed` what other sessions see; `clock`, `uuids` and `salts`
-- are the readings still to come, and `db_now` is the database's `now()`. `limiter` is what the rate
-- limiter will answer to a call, for the number of calls that a minute allows and the caller's key;
-- `ties` is how the database will rank the entries that a query leaves unordered.
pub record World : Type 0 where
  pub db : Db
  pub committed : Db
  pub clock : ℕ → ℕ
  pub uuids : ℕ → Uuid
  pub salts : ℕ → ℕ
  pub db_now : DateTime
  pub limiter : ℕ → ℕ → String → Bool
  pub ties : ℕ → AuditLog → ℕ

abbrev pub M : Type 0 → Type 0
M A = World → Result A × World

module _ {A : Type 0} where
  unfoldable pub pure : A → M A
  pure a w = (ok a, w)

  unfoldable pub raise : Exn → M A
  raise e w = (raised e, w)

  unfoldable pub lift : Result A → M A
  lift r w = (r, w)

  -- a query of the session
  unfoldable pub query : (Db → A) → M A
  query f w = (ok (f w.db), w)

  unfoldable pub require : Option A → Exn → M A
  require none e w = (raised e, w)
  require (some a) e w = (ok a, w)

unfoldable pub raise_if : Bool → Exn → M (Unit {0})
raise_if true e w = (raised e, w)
raise_if false e w = (ok tt, w)

unfoldable pub modify : (Db → Db) → M (Unit {0})
modify f w = (ok tt, record w { db = f w.db })

-- `datetime.now(timezone.utc)`
unfoldable pub utcnow : M ℕ
utcnow w = (ok (w.clock zero), record w { clock = λ i. w.clock (suc i) })

-- `uuid.uuid4()`
unfoldable pub uuid4 : M Uuid
uuid4 w = (ok (w.uuids zero), record w { uuids = λ i. w.uuids (suc i) })

unfoldable pub new_salt : M ℕ
new_salt w = (ok (w.salts zero), record w { salts = λ i. w.salts (suc i) })

-- the column default `func.now()`
unfoldable pub server_now : M DateTime
server_now w = (ok w.db_now, w)

-- a call under the rate limiter: whether it may go on
unfoldable pub hit : ℕ → String → M Bool
hit per_minute key w =
    (ok (w.limiter zero per_minute key), record w { limiter = λ i. w.limiter (suc i) })

-- how the database breaks the ties of the next ordered query
unfoldable pub tie_order : M (AuditLog → ℕ)
tie_order w = (ok (w.ties zero), record w { ties = λ i. w.ties (suc i) })

unfoldable pub commit : M (Unit {0})
commit w = (ok tt, record w { committed = w.db })

module _ {A B : Type 0} where
  abbrev pub continue : Result A × World → (A → M B) → Result B × World
  continue (ok a, w) f = f a w
  continue (raised e, w) f = (raised e, w)

  infixl 5 ◌>>=◌ ◌>>◌
  -- a test that unfolds this runs whole blocks
  unfoldable pub ◌>>=◌ : M A → (A → M B) → M B
  unfolding pure raise lift query require raise_if modify utcnow uuid4 new_salt server_now hit
      tie_order commit
  ◌>>=◌ m f w = continue (m w) f

  abbrev pub ◌>>◌ : M A → M B → M B
  m >> k = m >>= λ _. k
