-- ===== src/Routes/Bodies.antt =====
-- app/schemas/schemas.py: the constraints on the bodies of requests, and those on the query of
-- app/routes/audit.py.
use vista_authen.Prelude.{ℕ, String, Bool, true, false, ◌&&◌, Option, none, some, leb}
use vista_authen.Externals.{Externals, Loaded, key, raises_value_error, raises_unsupported}
use vista_authen.Python.Strings.{str_len}

-- `Field(..., min_length=lo, max_length=hi)`
abbrev pub length_between : ℕ → ℕ → String → Bool
length_between lo hi s = leb lo (str_len s) && leb (str_len s) hi

-- `Field(None, max_length=hi)`
abbrev pub length_at_most : ℕ → Option String → Bool
length_at_most hi none = true
length_at_most hi (some s) = leb (str_len s) hi

-- UnitCreate
abbrev pub fits_unit_create : String → ℕ → Bool
fits_unit_create unit_number max_residents = length_between 1 50 unit_number && leb 1 max_residents

-- UnitUpdate
abbrev pub fits_unit_update : ℕ → Bool
fits_unit_update max_residents = leb 1 max_residents

-- ResidentCreate
abbrev pub fits_resident_create : String → Option String → Option String → Bool
fits_resident_create name phone email =
    length_between 1 255 name && length_at_most 50 phone && length_at_most 255 email

-- ResidentUpdateContact
abbrev pub fits_contact : Option String → Option String → Bool
fits_contact phone email = length_at_most 50 phone && length_at_most 255 email

module _ (x : Externals) where
  -- ResidentRegisterRequest.validate_public_key
  abbrev pub is_pem : Loaded x.PublicKey → Bool
  is_pem (key k) = true
  is_pem raises_value_error = false
  is_pem (raises_unsupported message) = false

  -- ResidentRegisterRequest
  abbrev pub fits_register : String → Bool
  fits_register public_key_pem =
      length_between 1 10240 public_key_pem && is_pem (x.load_pem_public_key public_key_pem)

-- CheckerCreate
abbrev pub fits_checker_create : String → String → Bool
fits_checker_create username password = length_between 1 255 username && leb 8 (str_len password)

-- AccessVerifyRequest
abbrev pub fits_verify : String → Bool
fits_verify qr_payload = length_between 1 10240 qr_payload

-- the query of list_audit_logs
abbrev pub fits_page : ℕ → ℕ → Bool
fits_page page page_size = leb 1 page && leb 1 page_size && leb page_size 100
