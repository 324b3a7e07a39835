-- ===== src/Security.antt =====
-- app/core/security.py: password hashes and access tokens.
use vista_authen.Prelude.{
  ℕ, ◌+◌, ◌*◌, String, Bool, Option, none, some, [], ◌∷◌, ◌==◌, String_eq, if◌then◌else◌,
}
use vista_authen.Models.{Json, Details, aware}
use vista_authen.Session.{M, pure, lift, utcnow, new_salt, ◌>>=◌}
use vista_authen.Config.{Settings}
use vista_authen.Externals.{Externals}

-- `d.get(key)`
abbrev pub lookup : String → Details → Option Json
lookup key [] = none
lookup key ((k, v) ∷ d) = if k == key then some v else lookup key d

-- `d.update({key: value})`
abbrev pub update : String → Json → Details → Details
update key v [] = (key, v) ∷ []
update key v ((k, x) ∷ d) = if k == key then (k, v) ∷ d else (k, x) ∷ update key v d

abbrev pub minute : ℕ
minute = 60 * 1000000

module _ (x : Externals) where
  unfoldable pub hash_password : String → M String
  hash_password password = do salt ← new_salt; lift (x.hash salt password)

  unfoldable pub verify_password : String → String → M Bool
  verify_password plain_password hashed_password =
      lift (x.verify_hash plain_password hashed_password)

  -- create_access_token, with the default `expires_delta`
  unfoldable pub create_access_token : Settings → Details → M String
  create_access_token cfg claims = do
    now ← utcnow
    let expire : ℕ = now + cfg.jwt_access_token_expire_minutes * minute
    pure (
        x.jwt_encode (update "exp" (Json.date (aware expire)) claims) cfg.jwt_secret
          cfg.jwt_algorithm)

  -- decode_access_token; the library compares `exp` with the clock
  unfoldable pub decode_access_token : Settings → String → M (Option Details)
  decode_access_token cfg token = do
    now ← utcnow
    pure (x.jwt_decode now token cfg.jwt_secret (cfg.jwt_algorithm ∷ []))
