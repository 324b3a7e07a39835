-- ===== src/Services/Residents/Activation.antt =====
-- app/services/resident_service.py: `register_device`.
use vista_authen.Prelude.{
  ℕ, String, Bool, true, false, not, none, some, [], ◌∷◌, ◌==◌, ℕ_eq, String_eq, ltb, select,
}
use vista_authen.Models.{
  Resident, ActivationToken, DateTime, naive, aware, Json, pending, active, status_eq,
}
use vista_authen.Session.{
  M, Result, ok, raised, pure, query, modify, require, raise_if, lift, utcnow, ◌>>=◌, ◌>>◌,
  value_error, type_error, invalid_token, token_already_used, token_expired, resident_not_found,
  not_pending,
}
use vista_authen.Python.UuidText.{str_uuid}
use vista_authen.Rows.{get, put, unit_keyed, resident_keyed, token_keyed}
use vista_authen.Tables.{scalar_one_or_none}
use vista_authen.Services.Logging.{log_resident_action}

-- `expires_at.replace(tzinfo=timezone.utc)` where there is no time zone
abbrev pub as_utc : DateTime → DateTime
as_utc (naive n) = aware n
as_utc (aware n) = aware n

-- `a < b` of datetimes
abbrev pub lt_datetime : DateTime → DateTime → Result Bool
lt_datetime (naive a) (naive b) = ok (ltb a b)
lt_datetime (aware a) (aware b) = ok (ltb a b)
lt_datetime _ _ = raised type_error

abbrev pub is_used : ActivationToken → Bool
is_used token = elim token.used_at [ none ↦ false | some _ ↦ true ]

-- the checks on the token, in their order
unfoldable pub check_token : ActivationToken → M (Unit {0})
check_token token = do
  raise_if (is_used token) (value_error token_already_used)
  now ← utcnow
  expired ← lift (lt_datetime (as_utc token.expires_at) (aware now))
  raise_if expired (value_error token_expired)

unfoldable pub find_token : String → M ActivationToken
find_token activation_token = do
  rows ← query (λ d. select (λ t. t.token == activation_token) d.activation_tokens)
  found ← scalar_one_or_none rows
  require found (value_error invalid_token)

abbrev pub activated : String → Resident → Resident
activated public_key_pem resident = record resident {
  public_key = some public_key_pem;
  status = active;
}

abbrev pub consumed : ℕ → ActivationToken → ActivationToken
consumed now token = record token { used_at = some (aware now) }

-- the second half of `register_device`: the resident is activated and the token consumed
unfoldable pub bind_device : ActivationToken → Resident → String → M Resident
bind_device token resident public_key_pem = do
  modify (λ d. record d { residents = put (activated public_key_pem resident) d.residents })
  now ← utcnow
  modify (λ d. record d { activation_tokens = put (consumed now token) d.activation_tokens })
  log_resident_action "device_activated" (some resident.id) "resident" (some resident.unit_id)
      (("resident_id", Json.text (str_uuid resident.id)) ∷ [])
  pure (activated public_key_pem resident)

-- ResidentService.register_device
unfoldable pub register_device : String → String → M Resident
register_device activation_token public_key_pem = do
  token ← find_token activation_token
  check_token token
  found ← query (λ d. get token.resident_id d.residents)
  resident ← require found (value_error resident_not_found)
  raise_if (not (resident.status == pending)) (value_error (not_pending resident.status))
  bind_device token resident public_key_pem
