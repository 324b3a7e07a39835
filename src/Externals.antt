-- ===== src/Externals.antt =====
-- What the program calls and does not implement: bcrypt (passlib), JSON web tokens (python-jose),
-- PEM keys and signatures (cryptography), and the database's order of texts. Everything here is a
-- parameter of the definitions that use it.
use vista_authen.Prelude.{ℕ, String, Bool, Option, List}
use vista_authen.Models.{Details, DateTime, BuildingUnit}
use vista_authen.Session.{Result}

-- the classes that the code tells apart by `isinstance`
pub data KeyClass : Type 0 where
  elliptic_curve rsa other_key : KeyClass

-- the arguments of `public_key.verify`: ECDSA(SHA256), or PKCS1v15 with SHA256
pub data Scheme : Type 0 where
  ecdsa_sha256 pkcs1v15_sha256 : Scheme

-- how `public_key.verify` ends
pub data Verdict : Type 0 where
  returns raises_invalid_signature raises_other : Verdict

-- how `load_pem_public_key` ends: with a key, a ValueError or TypeError, or another exception
-- with its text
pub data Loaded (K : Type 0) : Type 0 where
  key : K → Loaded K
  raises_value_error : Loaded K
  raises_unsupported : String → Loaded K

pub record Externals : Type 1 where
  -- pwd_context.hash, with the salt that it draws, and pwd_context.verify; both may raise
  pub hash : ℕ → String → Result String
  pub verify_hash : String → String → Result Bool
  -- jwt.encode with a secret and an algorithm; jwt.decode at a time, `none` for JWTError
  pub jwt_encode : Details → String → String → String
  pub jwt_decode : ℕ → String → String → List String → Option Details
  -- load_pem_public_key of the encoded text, and the methods of the key
  pub PublicKey : Type 0
  pub load_pem_public_key : String → Loaded PublicKey
  pub class_of : PublicKey → KeyClass
  pub verify : PublicKey → List ℕ → String → Scheme → Verdict
  pub encode_dss_signature : ℕ → ℕ → List ℕ
  -- reading the `updated_at` of a row after the flush that has written it: `onupdate` expires the
  -- attribute, and loading it again may raise in an asynchronous session
  pub reload_updated_at : BuildingUnit → Result DateTime
  -- `ORDER BY` of a text column
  pub collate : String → String → Bool
