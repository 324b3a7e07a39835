-- ===== src/Models.antt =====
-- app/models/models.py: the enumerations and the six tables, and the row selectors that the
-- services share. A UUID is its 128-bit number; a datetime is a number of microseconds since the
-- epoch, with or without a time zone (SQLite hands naive values back).
use vista_authen.Prelude.{ℕ, String, ◌≡◌, ◌↔◌, Bool, true, false, Option, List, Equality, arith}
use vista_authen.Prelude.Int.{ℤ}

abbrev pub Uuid : Type 0
Uuid = ℕ

pub data DateTime : Type 0 where
  naive aware : ℕ → DateTime

abbrev pub micros : DateTime → ℕ
micros (naive n) = n
micros (aware n) = n

pub data ResidentStatus : Type 0 where
  pending active revoked : ResidentStatus

pub data CheckerRole : Type 0 where
  guard manager : CheckerRole

pub data AdminRole : Type 0 where
  setup_admin resident_admin staff_admin : AdminRole

-- `==` of Python's enumerations
abbrev pub status_beq : ResidentStatus → ResidentStatus → Bool
status_beq pending pending = true
status_beq active active = true
status_beq revoked revoked = true
status_beq _ _ = false

pub status_beq_iff : (a b : ResidentStatus) → (status_beq a b ≡ true) ↔ (a ≡ b)
status_beq_iff a b = (λ h. ground arith, λ h. ground arith)

instance abbrev pub status_eq : Equality ResidentStatus
status_eq = record { test = status_beq; decides = status_beq_iff }

abbrev pub checker_role_beq : CheckerRole → CheckerRole → Bool
checker_role_beq guard guard = true
checker_role_beq manager manager = true
checker_role_beq _ _ = false

pub checker_role_beq_iff : (a b : CheckerRole) → (checker_role_beq a b ≡ true) ↔ (a ≡ b)
checker_role_beq_iff a b = (λ h. ground arith, λ h. ground arith)

instance abbrev pub checker_role_eq : Equality CheckerRole
checker_role_eq = record { test = checker_role_beq; decides = checker_role_beq_iff }

abbrev pub admin_role_beq : AdminRole → AdminRole → Bool
admin_role_beq setup_admin setup_admin = true
admin_role_beq resident_admin resident_admin = true
admin_role_beq staff_admin staff_admin = true
admin_role_beq _ _ = false

pub admin_role_beq_iff : (a b : AdminRole) → (admin_role_beq a b ≡ true) ↔ (a ≡ b)
admin_role_beq_iff a b = (λ h. ground arith, λ h. ground arith)

instance abbrev pub admin_role_eq : Equality AdminRole
admin_role_eq = record { test = admin_role_beq; decides = admin_role_beq_iff }

-- the values of the string enumerations
abbrev pub checker_role_value : CheckerRole → String
checker_role_value guard = "guard"
checker_role_value manager = "manager"

abbrev pub admin_role_value : AdminRole → String
admin_role_value setup_admin = "setup_admin"
admin_role_value resident_admin = "resident_admin"
admin_role_value staff_admin = "staff_admin"

-- class Unit
pub record BuildingUnit : Type 0 where
  pub id : Uuid
  pub unit_number : String
  pub max_residents : ℕ
  pub created_at : DateTime
  pub updated_at : DateTime

pub record Resident : Type 0 where
  pub id : Uuid
  pub unit_id : Uuid
  pub name : String
  pub public_key : Option String
  pub status : ResidentStatus
  pub is_owner : Bool
  pub phone : Option String
  pub email : Option String
  pub created_at : DateTime
  pub revoked_at : Option DateTime

pub record Checker : Type 0 where
  pub id : Uuid
  pub username : String
  pub hashed_password : String
  pub role : CheckerRole
  pub is_active : Bool
  pub created_at : DateTime

pub record Admin : Type 0 where
  pub id : Uuid
  pub username : String
  pub hashed_password : String
  pub role : AdminRole
  pub is_active : Bool
  pub created_at : DateTime

-- values of the JSON column `details`, and of the claims of a token
pub data Json : Type 0 where
  null : Json
  bool : Bool → Json
  num : ℤ → Json
  text : String → Json
  date : DateTime → Json

abbrev pub Details : Type 0
Details = List (String × Json)

pub record AuditLog : Type 0 where
  pub id : Uuid
  pub timestamp : DateTime
  pub action : String
  pub actor_id : Option Uuid
  pub actor_role : Option String
  pub unit_id : Option Uuid
  pub checker_id : Option Uuid
  pub details : Option Details

pub record ActivationToken : Type 0 where
  pub id : Uuid
  pub resident_id : Uuid
  pub token : String
  pub expires_at : DateTime
  pub used_at : Option DateTime

-- The tables of the database. A table is its rows; their order means nothing.
pub record Db : Type 0 where
  pub units : List BuildingUnit
  pub residents : List Resident
  pub checkers : List Checker
  pub admins : List Admin
  pub audit_logs : List AuditLog
  pub activation_tokens : List ActivationToken
