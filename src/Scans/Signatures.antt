-- ===== src/Scans/Signatures.antt =====
-- app/services/crypto_service.py: a raw signature of Web Crypto is its two numbers, big-endian, and is
-- checked in DER form.
use Prim.Native.Nat.pow
use vista_authen.Prelude.{
  ℕ, zero, suc, ◌+◌, ◌/◌, ◌%◌, ◌^◌, ◌<◌, ◌≡◌, refl, ap, ◌∙◌, String, List, [], ◌∷◌, ◌++◌, arith,
  length, take, drop, ◌==◌, ℕ_eq, ◌&&◌, if◌then◌else◌,
}
use vista_authen.Session.{ok}
use vista_authen.Externals.{Externals, elliptic_curve, key, ecdsa_sha256}
use vista_authen.Services.Crypto.{
  int_from_bytes, der_signature, verify_with, verify_loaded, verify_signature, accepted,
  is_elliptic,
}

-- `n.to_bytes(k, byteorder="big")`, in front of `rest`
abbrev pub bytes_onto : ℕ → ℕ → List ℕ → List ℕ
bytes_onto zero n rest = rest
bytes_onto (suc k) n rest = bytes_onto k (n / 256) (n % 256 ∷ rest)

-- the raw signature of 64 bytes
abbrev pub raw_signature : ℕ → ℕ → List ℕ
raw_signature r s = bytes_onto 32 r (bytes_onto 32 s [])

length-bytes_onto : (k n : ℕ) (rest : List ℕ) → length (bytes_onto k n rest) ≡ k + length rest
length-bytes_onto zero n rest = omega arith
length-bytes_onto (suc k) n rest = length-bytes_onto k (n / 256) _ ∙ omega arith

int_from_bytes-bytes_onto :
    (k n acc : ℕ) (rest : List ℕ)
    → n < 256 ^ k
    → acc ≡ 0
    → int_from_bytes acc (bytes_onto k n rest) ≡ int_from_bytes n rest
unfolding int_from_bytes
int_from_bytes-bytes_onto zero n acc rest h z = ap (λ m. int_from_bytes m rest) (omega arith)
int_from_bytes-bytes_onto (suc k) n acc rest h z =
    int_from_bytes-bytes_onto k (n / 256) acc _ (omega (arith, pow.suc 256 k)) z
    ∙ ap (λ m. int_from_bytes m rest) (omega arith)

int_from_bytes_nil : (n : ℕ) → int_from_bytes n [] ≡ n
unfolding int_from_bytes
int_from_bytes_nil n = refl

append-bytes_onto :
    (k n : ℕ) (xs rest : List ℕ) → bytes_onto k n (xs ++ rest) ≡ bytes_onto k n xs ++ rest
append-bytes_onto zero n xs rest = refl
append-bytes_onto (suc k) n xs rest = append-bytes_onto k (n / 256) (n % 256 ∷ xs) rest

take-append : (k : ℕ) (xs ys : List ℕ) → length xs ≡ k → take k (xs ++ ys) ≡ xs
take-append zero [] [] h = refl
take-append zero [] (y ∷ ys) h = refl
take-append zero (x ∷ xs) ys h = absurd (omega arith)
take-append (suc k) [] ys h = absurd (omega arith)
take-append (suc k) (x ∷ xs) ys h = ap (λ l. x ∷ l) (take-append k xs ys (omega arith))

drop-append : (k : ℕ) (xs ys : List ℕ) → length xs ≡ k → drop k (xs ++ ys) ≡ ys
drop-append zero [] [] h = refl
drop-append zero [] (y ∷ ys) h = refl
drop-append zero (x ∷ xs) ys h = absurd (omega arith)
drop-append (suc k) [] ys h = absurd (omega arith)
drop-append (suc k) (x ∷ xs) ys h = drop-append k xs ys (omega arith)

chosen :
    (n : ℕ) (der raw : List ℕ)
    → n ≡ 64
    → (if is_elliptic elliptic_curve && n == 64 then der else raw) ≡ der
chosen n der raw h = ground arith

module _ (r s : ℕ) (small_r : r < 2 ^ 256) (small_s : s < 2 ^ 256) where
  in_two : raw_signature r s ≡ bytes_onto 32 r [] ++ bytes_onto 32 s []
  in_two = append-bytes_onto 32 r [] (bytes_onto 32 s [])

  first_half : int_from_bytes 0 (take 32 (raw_signature r s)) ≡ r
  first_half =
      ap (λ bs. int_from_bytes 0 (take 32 bs)) in_two
      ∙ ap (int_from_bytes 0)
          (take-append 32 (bytes_onto 32 r []) (bytes_onto 32 s []) (length-bytes_onto 32 r []))
      ∙ int_from_bytes-bytes_onto 32 r 0 [] (omega arith) refl
      ∙ int_from_bytes_nil r

  second_half : int_from_bytes 0 (drop 32 (raw_signature r s)) ≡ s
  second_half =
      ap (λ bs. int_from_bytes 0 (drop 32 bs)) in_two
      ∙ ap (int_from_bytes 0)
          (drop-append 32 (bytes_onto 32 r []) (bytes_onto 32 s []) (length-bytes_onto 32 r []))
      ∙ int_from_bytes-bytes_onto 32 s 0 [] (omega arith) refl
      ∙ int_from_bytes_nil s

  count_64 : length (raw_signature r s) ≡ 64
  count_64 =
      length-bytes_onto 32 r (bytes_onto 32 s []) ∙ ap (λ l. 32 + l) (length-bytes_onto 32 s [])

  der_signature-raw :
      (x : Externals)
      → der_signature x elliptic_curve (raw_signature r s) ≡ x.encode_dss_signature r s
  unfolding der_signature
  der_signature-raw x =
      chosen (length (raw_signature r s))
        (x.encode_dss_signature (int_from_bytes 0 (take 32 (raw_signature r s)))
          (int_from_bytes 0 (drop 32 (raw_signature r s))))
        (raw_signature r s) count_64
      ∙ ap (λ m. x.encode_dss_signature m (int_from_bytes 0 (drop 32 (raw_signature r s))))
          first_half
      ∙ ap (x.encode_dss_signature r) second_half

  -- For a key of an elliptic curve, a raw signature, the 32 big-endian bytes of `r` and then those of
  -- `s`, is checked as the DER form of the numbers `r` and `s`, with ECDSA and SHA256; it is accepted
  -- exactly where the library accepts that.
  pub verify_signature-raw :
      (x : Externals) (pem payload : String) (k : x.PublicKey)
      → x.load_pem_public_key pem ≡ key k
      → x.class_of k ≡ elliptic_curve
      → verify_signature x pem payload (raw_signature r s)
        ≡ ok (accepted (x.verify k (x.encode_dss_signature r s) payload ecdsa_sha256))
  unfolding verify_signature verify_with
  verify_signature-raw x pem payload k loads curve =
      ap (λ l. verify_loaded x l payload (raw_signature r s)) loads
      ∙ ap (λ c. ok (verify_with x k c payload (der_signature x c (raw_signature r s)))) curve
      ∙ ap (λ d. ok (accepted (x.verify k d payload ecdsa_sha256))) (der_signature-raw x)
