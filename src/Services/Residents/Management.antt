-- ===== src/Services/Residents/Management.antt =====
-- app/services/resident_service.py: `revoke`, `update_contact` and the lists.
use vista_authen.Prelude.{
  ℕ, String, Bool, not, Option, none, some, List, [], ◌∷◌, ◌==◌, ℕ_eq, String_eq, select,
}
use vista_authen.Prelude.Sorting.{sort_by}
use vista_authen.Models.{Uuid, Resident, aware, Json, revoked, status_eq}
use vista_authen.Session.{
  M, pure, query, modify, raise_if, utcnow, ◌>>=◌, ◌>>◌, value_error, contact_update_is_owner_only,
  empty_phone, empty_email,
}
use vista_authen.Python.Strings.{is_blank, strip}
use vista_authen.Python.UuidText.{str_uuid}
use vista_authen.Rows.{get, put, unit_keyed, resident_keyed, token_keyed}
use vista_authen.Services.Logging.{log_resident_action}

abbrev pub as_revoked : ℕ → Resident → Resident
as_revoked now resident = record resident {
  status = revoked;
  public_key = none;
  revoked_at = some (aware now);
}

unfoldable pub revoke_found : Option Resident → Uuid → Option Uuid → M (Option Resident)
revoke_found none resident_id actor_id = pure none
revoke_found (some resident) resident_id actor_id = do
  now ← utcnow
  modify (λ d. record d { residents = put (as_revoked now resident) d.residents })
  log_resident_action "device_revoked" actor_id "resident_admin" (some resident.unit_id) (
      ("resident_id", Json.text (str_uuid resident_id))
      ∷ ("resident_name", Json.text resident.name)
      ∷ [])
  pure (some (as_revoked now resident))

-- ResidentService.revoke
unfoldable pub revoke : Uuid → Option Uuid → M (Option Resident)
revoke resident_id actor_id = do
  resident ← query (λ d. get resident_id d.residents)
  revoke_found resident resident_id actor_id

-- One attribute of the owner: `None` leaves it, a blank text is refused, and any other is written
-- at once, before the checks that follow.
unfoldable pub set_phone : Option String → Resident → M Resident
set_phone none resident = pure resident
set_phone (some phone) resident = do
  raise_if (is_blank phone) (value_error empty_phone)
  let resident' : Resident = record resident { phone = some (strip phone) }
  modify (λ d. record d { residents = put resident' d.residents })
  pure resident'

unfoldable pub set_email : Option String → Resident → M Resident
set_email none resident = pure resident
set_email (some email) resident = do
  raise_if (is_blank email) (value_error empty_email)
  let resident' : Resident = record resident { email = some (strip email) }
  modify (λ d. record d { residents = put resident' d.residents })
  pure resident'

abbrev optional_text : Option String → Json
optional_text none = Json.null
optional_text (some s) = Json.text s

unfoldable pub update_contact_found :
    Option Resident → Option String → Option String → Option Uuid → M (Option Resident)
update_contact_found none phone email actor_id = pure none
update_contact_found (some resident) phone email actor_id = do
  raise_if (not resident.is_owner) (value_error contact_update_is_owner_only)
  with_phone ← set_phone phone resident
  with_email ← set_email email with_phone
  log_resident_action "owner_contact_updated" actor_id "resident_admin" (some with_email.unit_id) (
      ("resident_id", Json.text (str_uuid with_email.id))
      ∷ ("phone", optional_text with_email.phone)
      ∷ ("email", optional_text with_email.email)
      ∷ [])
  pure (some with_email)

-- ResidentService.update_contact
unfoldable pub update_contact :
    Uuid → Option String → Option String → Option Uuid → M (Option Resident)
update_contact resident_id phone email actor_id = do
  resident ← query (λ d. get resident_id d.residents)
  update_contact_found resident phone email actor_id

-- ResidentService.list_by_unit, for the database's order of texts
unfoldable pub list_by_unit : (String → String → Bool) → Uuid → M (List Resident)
list_by_unit collate unit_id =
    query
      λ d. sort_by (λ a b. collate a.name b.name) (select (λ r. r.unit_id == unit_id) d.residents)

-- ResidentService.get
unfoldable pub get_by_id : Uuid → M (Option Resident)
get_by_id resident_id = query (λ d. get resident_id d.residents)
