-- ===== src/Limiter.antt =====
-- app/core/limiter.py: whom a call under the rate limiter is counted for. The limiter itself is a
-- library, whose answers stand in the world.
pub mod Keys
use Prim.Native.String.{◌++◌}
use vista_authen.Prelude.{ℕ, String, not, Option, none, some, List, ◌∷◌, if◌then◌else◌}
use vista_authen.Models.{Json, Details}
use vista_authen.Session.{M, pure, raise_if, hit, http, ◌>>=◌}
use vista_authen.Config.{Settings}
use vista_authen.Externals.{Externals}
use vista_authen.Security.{lookup, decode_access_token}
use vista_authen.Deps.{is_kind}
use vista_authen.Python.Strings.{is_empty, split, starts}

-- who calls: the header `Authorization`, and the address of the connection
pub record Caller : Type 0 where
  pub authorization : Option String
  pub address : String

-- `parts[1]`, of a text that has been split
unfoldable pub second : List String → String
second (a ∷ b ∷ ps) = b
second ps = ""

-- `f"checker:{checker_id}"`, for an id that counts as true. A `sub` that is no text is refused by
-- `jwt.decode`.
unfoldable pub checker_key : Option Json → Option String
checker_key (some (Json.text s)) = if is_empty s then none else some ("checker:" ++ s)
checker_key sub = none

-- the key in the payload of a token, if it is a checker's
unfoldable pub payload_key : Option Details → Option String
unfolding checker_key
payload_key none = none
payload_key (some payload) =
    if is_kind "checker" (lookup "type" payload) then checker_key (lookup "sub" payload) else none

unfoldable pub key_or_address : Option String → String → String
key_or_address none address = "ip:" ++ address
key_or_address (some key) address = key

module _ (x : Externals) (cfg : Settings) where
  unfoldable pub header_key : Option String → M (Option String)
  header_key none = pure none
  header_key (some header) =
      if starts "Bearer " header
      then (do
        payload ← decode_access_token x cfg (second (split b' ' header))
        pure (payload_key payload))
      else pure none

  unfoldable pub get_checker_rate_limit_key : Caller → M String
  get_checker_rate_limit_key caller = do
    key ← header_key caller.authorization
    pure (key_or_address key caller.address)

-- `@limiter.limit`: a call that is one too many is answered 429
unfoldable pub rate_limit : ℕ → String → M (Unit {0})
rate_limit per_minute key = do allowed ← hit per_minute key; raise_if (not allowed) (http 429)
