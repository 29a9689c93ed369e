-- ===== src/Schema.antt =====
-- services/admin-api/src/db/schema.ts: the rows of the tables that the modelled routes and
-- services read and write, with their columns, and the database as those tables. A UUID is a
-- number (of 128 bits), of which the code only asks whether two are equal; a timestamp is a number
-- of milliseconds. `created_at` columns, which the database fills and no modelled code reads, and
-- the columns `actor`, `actor_type`, `resource_type`, `ip_address` and `user_agent` of the audit
-- log, which no modelled code sets, are left out.
use mdm.Base.{ℕ, String, Bool, Option, List}
use mdm.Base.Text.{Text}
use mdm.Base.Table.{Table, IsLawful}
use mdm.DynamicGroups.Rules.{Rule}

abbrev pub Uuid : Type 0
Uuid = ℕ

-- A JSON value of a `jsonb` column, as far as the code tells values apart.
pub data Json : Type 0 where
  null : Json
  boolean : Bool → Json
  number : ℕ → Json
  string : Text → Json
  composite : Text → Json

pub data GroupType : Type 0 where
  static dynamic ldap : GroupType

-- deviceGroups
pub record Group : Type 0 where
  pub id : Uuid
  pub org_id : Uuid
  pub parent_id : Option Uuid
  pub name : Text
  pub description : Option Text
  pub type : GroupType
  pub is_dynamic : Bool
  pub dynamic_filter : Option Rule
  pub rules : Option Rule
  pub depth : ℕ
  pub updated_at : ℕ

-- deviceGroupMembers
pub record Member : Type 0 where
  pub group_id : Uuid
  pub device_id : Uuid

-- policies
pub record Policy : Type 0 where
  pub id : Uuid
  pub org_id : Uuid
  pub name : Text
  pub description : Option Text
  pub platform : String
  pub version : ℕ
  pub payload : Json
  pub is_active : Bool
  pub updated_at : ℕ

-- policyVersions
pub record PolicyVersion : Type 0 where
  pub policy_id : Uuid
  pub version : ℕ
  pub payload : Json
  pub created_by : Option Uuid

-- policyAssignments
pub record PolicyAssignment : Type 0 where
  pub id : Uuid
  pub policy_id : Uuid
  pub device_id : Option Uuid
  pub group_id : Option Uuid

-- auditLogs
pub record AuditLog : Type 0 where
  pub org_id : Uuid
  pub user_id : Option Uuid
  pub action : String
  pub resource : String
  pub resource_id : Option Uuid
  pub details : List (String × Json)

-- roles
pub record Role : Type 0 where
  pub id : Uuid
  pub org_id : Uuid
  pub name : String
  pub description : Option Text
  pub permissions : List Text
  pub is_system : Bool
  pub updated_at : ℕ

-- users
pub record User : Type 0 where
  pub id : Uuid
  pub org_id : Uuid
  pub role_id : Uuid
  pub email : String
  pub password_hash : Text
  pub first_name : Option Text
  pub last_name : Option Text
  pub is_active : Bool
  pub updated_at : ℕ

-- apiKeys
pub record ApiKey : Type 0 where
  pub id : Uuid
  pub org_id : Uuid
  pub user_id : Uuid
  pub name : Text
  pub key_hash : Text
  pub key_prefix : Text
  pub permissions : List Text
  pub last_used_at : Option ℕ
  pub expires_at : Option ℕ
  pub is_active : Bool

-- The device's columns that the modelled services read.
pub record Device : Type 0 where
  pub id : Uuid
  pub org_id : Uuid

-- The tables, which the server keeps.
pub record Tables : Type 1 where
  pub devices : Table Device
  pub groups : Table Group
  pub members : Table Member
  pub policies : Table Policy
  pub versions : Table PolicyVersion
  pub assignments : Table PolicyAssignment
  pub audit : Table AuditLog
  pub roles : Table Role
  pub users : Table User
  pub keys : Table ApiKey

pub record AreLawful (T : Tables) : Type 0 where
  pub devices : IsLawful (Tables.devices T)
  pub groups : IsLawful (Tables.groups T)
  pub members : IsLawful (Tables.members T)
  pub policies : IsLawful (Tables.policies T)
  pub versions : IsLawful (Tables.versions T)
  pub assignments : IsLawful (Tables.assignments T)
  pub audit : IsLawful (Tables.audit T)
  pub roles : IsLawful (Tables.roles T)
  pub users : IsLawful (Tables.users T)
  pub keys : IsLawful (Tables.keys T)

-- The state of the database.
pub record Db (T : Tables) : Type 0 where
  pub devices : Table.State (Tables.devices T)
  pub groups : Table.State (Tables.groups T)
  pub members : Table.State (Tables.members T)
  pub policies : Table.State (Tables.policies T)
  pub versions : Table.State (Tables.versions T)
  pub assignments : Table.State (Tables.assignments T)
  pub audit : Table.State (Tables.audit T)
  pub roles : Table.State (Tables.roles T)
  pub users : Table.State (Tables.users T)
  pub keys : Table.State (Tables.keys T)
