-- ===== src/Routes/Residents.antt =====
-- app/routes/residents.py
use vista_authen.Prelude.{String, Bool, Option, some, List, [], ◌∷◌, map}
use vista_authen.Models.{Resident, DateTime, ResidentStatus, resident_admin}
use vista_authen.Session.{M, pure, ◌>>=◌, ◌>>◌}
use vista_authen.Config.{Settings}
use vista_authen.Externals.{Externals}
use vista_authen.Deps.{require_admin_role}
use vista_authen.Rows.{resident_keyed}
use vista_authen.Services.Residents as Service
use vista_authen.Services.Accounts.{is_some}
use vista_authen.Python.UuidText.{str_uuid}
use vista_authen.Routes.Bodies.{fits_register, fits_resident_create, fits_contact}
use vista_authen.Routes.Http.{validate, or_bad_request, or_not_found, uuid_arg}

-- ResidentRead
pub record ResidentRead : Type 0 where
  pub id : String
  pub unit_id : String
  pub name : String
  pub status : ResidentStatus
  pub has_public_key : Bool
  pub is_owner : Bool
  pub phone : Option String
  pub email : Option String
  pub created_at : DateTime
  pub revoked_at : Option DateTime

-- _map_resident
abbrev pub map_resident : Resident → ResidentRead
map_resident r = record {
  id = str_uuid r.id;
  unit_id = str_uuid r.unit_id;
  name = r.name;
  status = r.status;
  has_public_key = is_some r.public_key;
  is_owner = r.is_owner;
  phone = r.phone;
  email = r.email;
  created_at = r.created_at;
  revoked_at = r.revoked_at;
}

pub record Provisioned : Type 0 where
  pub resident : ResidentRead
  pub activation_token : String
  pub expires_at : DateTime

module _ (x : Externals) where
  -- the endpoint needs no credentials but the activation token
  unfoldable pub register_device : String → String → M ResidentRead
  register_device activation_token public_key_pem = do
    validate (fits_register x public_key_pem)
    resident ← or_bad_request (Service.register_device activation_token public_key_pem)
    pure (map_resident resident)

module _ (x : Externals) (cfg : Settings) where
  unfoldable pub provision_resident :
      String → String → String → Option String → Option String → M Provisioned
  provision_resident credentials unit_id name phone email = do
    admin ← require_admin_role x cfg (resident_admin ∷ []) credentials
    validate (fits_resident_create name phone email)
    (resident, token) ←
        or_bad_request
          do id ← uuid_arg unit_id; Service.provision cfg id name phone email (some admin.id)
    pure (record {
      resident = map_resident resident;
      activation_token = token.token;
      expires_at = token.expires_at;
    })

  unfoldable pub revoke_resident : String → String → M ResidentRead
  revoke_resident credentials resident_id = do
    admin ← require_admin_role x cfg (resident_admin ∷ []) credentials
    id ← uuid_arg resident_id
    row ← Service.revoke id (some admin.id)
    resident ← or_not_found row
    pure (map_resident resident)

  unfoldable pub update_resident_contact :
      String → String → Option String → Option String → M ResidentRead
  update_resident_contact credentials resident_id phone email = do
    admin ← require_admin_role x cfg (resident_admin ∷ []) credentials
    validate (fits_contact phone email)
    row ←
        or_bad_request
          do id ← uuid_arg resident_id; Service.update_contact id phone email (some admin.id)
    resident ← or_not_found row
    pure (map_resident resident)

  unfoldable pub get_resident : String → String → M ResidentRead
  get_resident credentials resident_id = do
    require_admin_role x cfg (resident_admin ∷ []) credentials
    id ← uuid_arg resident_id
    row ← Service.get_by_id id
    resident ← or_not_found row
    pure (map_resident resident)

  unfoldable pub list_residents_by_unit : String → String → M (List ResidentRead)
  list_residents_by_unit credentials unit_id = do
    require_admin_role x cfg (resident_admin ∷ []) credentials
    id ← uuid_arg unit_id
    residents ← Service.list_by_unit x.collate id
    pure (map map_resident residents)
