-- ===== src/Seed.antt =====
-- seed.py: the tables are created anew and filled with the data of a development server.
pub mod Building
pub mod Uniqueness
pub mod Soundness
pub mod Outcome
use vista_authen.Prelude.{ℕ, ◌+◌, ◌*◌, String, Bool, true, false, Option, none, some, [], ◌∷◌}
use Prim.Native.String.{◌++◌}
use vista_authen.Models.{
  Uuid, BuildingUnit, Resident, Checker, Admin, ActivationToken, Db, DateTime, aware, CheckerRole,
  AdminRole, setup_admin, resident_admin, staff_admin, guard, manager, pending,
}
use vista_authen.Session.{M, pure, modify, commit, utcnow, uuid4, server_now, ◌>>=◌, ◌>>◌}
use vista_authen.Config.{Settings}
use vista_authen.Externals.{Externals}
use vista_authen.Security.{hash_password}
use vista_authen.Tables.{add_unit, add_resident, add_checker, add_admin, add_token}
use vista_authen.Services.Residents.{hour}

abbrev pub empty : Db
empty = record {
  units = [];
  residents = [];
  checkers = [];
  admins = [];
  audit_logs = [];
  activation_tokens = [];
}

-- drop_all and create_all, in a transaction of their own
unfoldable pub recreate_tables : M (Unit {0})
recreate_tables = do modify (λ d. empty); commit

abbrev pub seeded_unit : DateTime → BuildingUnit
seeded_unit now = record {
  id = 0x6bb9d19b9339427f904abf8961cee5fc;
  unit_number = "T13402";
  max_residents = 3;
  created_at = now;
  updated_at = now;
}

-- a resident who waits for a device
abbrev pub seeded_resident :
    Uuid → String → Bool → Option String → Option String → DateTime → Resident
seeded_resident id name is_owner phone email now = record {
  id = id;
  unit_id = 0x6bb9d19b9339427f904abf8961cee5fc;
  name = name;
  public_key = none;
  status = pending;
  is_owner = is_owner;
  phone = phone;
  email = email;
  created_at = now;
  revoked_at = none;
}

abbrev pub first_resident : Settings → DateTime → Resident
first_resident cfg =
    seeded_resident 0x6e27257418dc474c84b6320e5882eef9 "Test Resident 1" true (some "+1234567890")
      (some ("owner@" ++ cfg.domain_name))

abbrev pub second_resident : DateTime → Resident
second_resident =
    seeded_resident 0xe3f5b7261bda45cc81995efde0a1d6bc "Test Resident 2" false none none

abbrev pub third_resident : DateTime → Resident
third_resident =
    seeded_resident 0x02ac16e32bd14d1a9694817abdc381c8 "Test Resident 3" false none none

abbrev pub seeded_token : Uuid → String → ℕ → Uuid → ActivationToken
seeded_token resident_id token now id = record {
  id = id;
  resident_id = resident_id;
  token = token;
  expires_at = aware (now + 24 * hour);
  used_at = none;
}

abbrev pub first_token : ℕ → Uuid → ActivationToken
first_token = seeded_token 0x6e27257418dc474c84b6320e5882eef9 "283b63e3caa44aa197e0ec0f370c6b3b"

abbrev pub second_token : ℕ → Uuid → ActivationToken
second_token = seeded_token 0xe3f5b7261bda45cc81995efde0a1d6bc "2463071114f246be9eb30b7145206b74"

abbrev pub third_token : ℕ → Uuid → ActivationToken
third_token = seeded_token 0x02ac16e32bd14d1a9694817abdc381c8 "f54a7fa85ae649eebfd80a5802b3ff07"

-- The flush draws the key of a row that has none.
unfoldable pub seed_admin : String → String → AdminRole → M (Unit {0})
seed_admin username hashed_password role = do
  id ← uuid4
  now ← server_now
  add_admin (record {
    id = id;
    username = username;
    hashed_password = hashed_password;
    role = role;
    is_active = true;
    created_at = now;
  })

unfoldable pub seed_checker : String → String → CheckerRole → M (Unit {0})
seed_checker username hashed_password role = do
  id ← uuid4
  now ← server_now
  add_checker (record {
    id = id;
    username = username;
    hashed_password = hashed_password;
    role = role;
    is_active = true;
    created_at = now;
  })

unfoldable pub seed_unit : M (Unit {0})
seed_unit = do now ← server_now; add_unit (seeded_unit now)

-- a resident and the token that comes with it
unfoldable pub seed_resident : (DateTime → Resident) → (Uuid → ActivationToken) → M (Unit {0})
seed_resident resident token = do
  now ← server_now
  add_resident (resident now)
  id ← uuid4
  add_token (token id)

unfoldable pub seed_staff : Externals → M (Unit {0})
seed_staff x = do
  setup_hash ← hash_password x "admin1234"
  resident_hash ← hash_password x "admin1234"
  staff_hash ← hash_password x "admin1234"
  guard_hash ← hash_password x "checker1234"
  manager_hash ← hash_password x "checker1234"
  seed_admin "setup_admin" setup_hash setup_admin
  seed_admin "resident_admin" resident_hash resident_admin
  seed_admin "staff_admin" staff_hash staff_admin
  seed_checker "guard1" guard_hash guard
  seed_checker "manager1" manager_hash manager

unfoldable pub seed_building : Settings → M (Unit {0})
seed_building cfg = do
  first ← utcnow
  second ← utcnow
  third ← utcnow
  seed_unit
  seed_resident (first_resident cfg) (first_token first)
  seed_resident second_resident (second_token second)
  seed_resident third_resident (third_token third)

-- main
unfoldable pub seed : Externals → Settings → M (Unit {0})
seed x cfg = do recreate_tables; seed_staff x; seed_building cfg; commit
