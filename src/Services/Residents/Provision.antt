-- ===== src/Services/Residents/Provision.antt =====
-- app/services/resident_service.py: `provision`.
use vista_authen.Prelude.{
  ℕ, ◌+◌, ◌*◌, String, Bool, true, false, not, ◌&&◌, ◌||◌, Option, none, some, [], ◌∷◌, ◌==◌, ℕ_eq,
  String_eq, leb, if◌then◌else◌, find,
}
use vista_authen.Prelude.Int.{pos}
use vista_authen.Models.{
  Uuid, BuildingUnit, Resident, ActivationToken, aware, Json, pending, revoked, status_eq,
}
use vista_authen.Session.{
  M, pure, raise, query, require, raise_if, utcnow, uuid4, server_now, ◌>>=◌, ◌>>◌, value_error,
  unit_not_found, at_capacity, owner_needs_contact, contact_is_owner_only,
}
use vista_authen.Python.Strings.{truthy, is_blank, strip, is_empty}
use vista_authen.Python.UuidText.{hex, str_uuid}
use vista_authen.Config.{Settings}
use vista_authen.Rows.{get, unit_keyed, resident_keyed, token_keyed}
use vista_authen.Tables.{add_resident, add_token, active_resident_count}
use vista_authen.Services.Logging.{log_resident_action}

abbrev pub hour : ℕ
hour = 3600 * 1000000

-- the query for an owner that has not been revoked
abbrev pub owns : Uuid → Resident → Bool
owns unit_id r = r.unit_id == unit_id && r.is_owner && not (r.status == revoked)

-- `phone.strip() if is_owner and phone else None`
abbrev pub contact : Bool → Option String → Option String
contact is_owner none = none
contact is_owner (some s) = if is_owner && not (is_empty s) then some (strip s) else none

-- `not s or not s.strip()`
abbrev pub missing : Option String → Bool
missing none = true
missing (some s) = is_empty s || is_blank s

-- Whether the new resident is the owner: the first resident of the unit is, and must leave a
-- telephone number and an email address; nobody else may.
unfoldable pub ownership : Option Resident → Option String → Option String → M Bool
ownership none phone email = do
  raise_if (missing phone || missing email) (value_error owner_needs_contact)
  pure true
ownership (some owner) phone email = do
  raise_if (truthy phone || truthy email) (value_error contact_is_owner_only)
  pure false

unfoldable pub new_resident : Uuid → String → Option String → Option String → Bool → M Resident
new_resident unit_id name phone email is_owner = do
  id ← uuid4
  now ← server_now
  let resident : Resident = record {
    id = id;
    unit_id = unit_id;
    name = name;
    public_key = none;
    status = pending;
    is_owner = is_owner;
    phone = contact is_owner phone;
    email = contact is_owner email;
    created_at = now;
    revoked_at = none;
  }
  add_resident resident
  pure resident

unfoldable pub new_token : Settings → Uuid → M ActivationToken
new_token cfg resident_id = do
  token ← uuid4
  now ← utcnow
  id ← uuid4
  let row : ActivationToken = record {
    id = id;
    resident_id = resident_id;
    token = hex token;
    expires_at = aware (now + cfg.activation_token_ttl_hours * hour);
    used_at = none;
  }
  add_token row
  pure row

unfoldable pub block_registration :
    {A : Type 0} → Option Uuid → Uuid → String → BuildingUnit → ℕ → M A
block_registration actor_id unit_id name unit active_count = do
  log_resident_action "registration_blocked" actor_id "resident_admin" (some unit_id) (
      ("attempted_name", Json.text name)
      ∷ ("active_count", Json.num (pos active_count))
      ∷ ("max_residents", Json.num (pos unit.max_residents))
      ∷ [])
  raise (value_error (at_capacity unit.unit_number active_count unit.max_residents))

-- the second half of `provision`, for a unit with room
unfoldable pub provision_in :
    Settings
    → Uuid
    → String
    → Option String
    → Option String
    → Option Uuid
    → M (Resident × ActivationToken)
provision_in cfg unit_id name phone email actor_id = do
  owner ← query (λ d. find (owns unit_id) d.residents)
  is_owner ← ownership owner phone email
  resident ← new_resident unit_id name phone email is_owner
  token ← new_token cfg resident.id
  log_resident_action "resident_provisioned" actor_id "resident_admin" (some unit_id) (
      ("resident_id", Json.text (str_uuid resident.id))
      ∷ ("resident_name", Json.text name)
      ∷ ("is_owner", Json.bool is_owner)
      ∷ [])
  pure (resident, token)

-- ResidentService.provision
unfoldable pub provision :
    Settings
    → Uuid
    → String
    → Option String
    → Option String
    → Option Uuid
    → M (Resident × ActivationToken)
provision cfg unit_id name phone email actor_id = do
  found ← query (λ d. get unit_id d.units)
  unit ← require found (value_error (unit_not_found unit_id))
  active_count ← query (active_resident_count unit_id)
  if leb unit.max_residents active_count
      then block_registration actor_id unit_id name unit active_count
      else provision_in cfg unit_id name phone email actor_id
