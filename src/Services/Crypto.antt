-- ===== src/Services/Crypto.antt =====
-- app/services/crypto_service.py
use vista_authen.Prelude.{
  ℕ, ◌+◌, ◌*◌, String, Bool, true, false, ◌&&◌, List, [], ◌∷◌, ◌==◌, ℕ_eq, length, take, drop,
  if◌then◌else◌,
}
use vista_authen.Session.{Result, ok, raised, library_error}
use vista_authen.Externals.{
  Externals, KeyClass, elliptic_curve, rsa, other_key, ecdsa_sha256, pkcs1v15_sha256, Verdict,
  returns, raises_invalid_signature, raises_other, Loaded, key, raises_value_error,
  raises_unsupported,
}

-- `int.from_bytes(data, byteorder="big")`
unfoldable pub int_from_bytes : ℕ → List ℕ → ℕ
int_from_bytes acc [] = acc
int_from_bytes acc (b ∷ bs) = int_from_bytes (acc * 256 + b) bs

abbrev pub is_elliptic : KeyClass → Bool
is_elliptic elliptic_curve = true
is_elliptic _ = false

-- the `try` around `public_key.verify`
abbrev pub accepted : Verdict → Bool
accepted returns = true
accepted raises_invalid_signature = false
accepted raises_other = false

module _ (x : Externals) where
  -- A raw signature of Web Crypto, 64 bytes for an elliptic curve, becomes DER.
  unfoldable pub der_signature : KeyClass → List ℕ → List ℕ
  unfolding int_from_bytes
  der_signature c signature =
      if is_elliptic c && length signature == 64
      then x.encode_dss_signature (int_from_bytes 0 (take 32 signature))
          (int_from_bytes 0 (drop 32 signature))
      else signature

  unfoldable pub verify_with : x.PublicKey → KeyClass → String → List ℕ → Bool
  verify_with public_key elliptic_curve payload signature =
      accepted (x.verify public_key signature payload ecdsa_sha256)
  verify_with public_key rsa payload signature =
      accepted (x.verify public_key signature payload pkcs1v15_sha256)
  verify_with public_key other_key payload signature = false

  unfoldable pub verify_loaded : Loaded x.PublicKey → String → List ℕ → Result Bool
  unfolding der_signature verify_with
  verify_loaded (key public_key) payload signature =
      let c = x.class_of public_key in
      ok (verify_with public_key c payload (der_signature c signature))
  verify_loaded raises_value_error payload signature = ok false
  verify_loaded (raises_unsupported message) payload signature = raised (library_error message)

  -- CryptoService.verify_signature
  unfoldable pub verify_signature : String → String → List ℕ → Result Bool
  unfolding verify_loaded
  verify_signature public_key_pem payload signature =
      verify_loaded (x.load_pem_public_key public_key_pem) payload signature
