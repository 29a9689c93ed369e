-- ===== src/Apps/Model.antt =====
-- The rows of the app service's tables, and the database as those tables.
use mdm.Base.{ℕ, String, Bool, Option}
use mdm.Base.Text.{Text}
use mdm.Base.Table.{Table, IsLawful}
use mdm.Schema.{Uuid, Member}

pub record App : Type 0 where
  pub id : Uuid
  pub name : Text
  pub package_name : String
  pub description : Option Text
  pub icon_url : Option Text
  pub platform : String
  pub type : String
  pub is_public : Bool
  pub org_id : Uuid
  pub updated_at : ℕ

pub record AppVersion : Type 0 where
  pub id : Uuid
  pub app_id : Uuid
  pub version_code : ℕ
  pub version_name : Text
  pub file_url : Text
  pub file_hash : Text
  pub file_size : ℕ
  pub min_sdk_version : Option ℕ
  pub release_notes : Option Text
  pub is_current : Bool

pub record AppAssignment : Type 0 where
  pub id : Uuid
  pub app_id : Uuid
  pub target_type : String
  pub target_id : Uuid
  pub install_type : String

pub record InstalledAppInfo : Type 0 where
  pub package_name : String
  pub version_code : ℕ
  pub version_name : Text
  pub is_system : Bool

pub record AppTables : Type 1 where
  pub apps : Table App
  pub versions : Table AppVersion
  pub assignments : Table AppAssignment
  pub members : Table Member

pub record AppTablesLaws (T : AppTables) : Type 0 where
  pub apps : IsLawful (AppTables.apps T)
  pub versions : IsLawful (AppTables.versions T)
  pub assignments : IsLawful (AppTables.assignments T)
  pub members : IsLawful (AppTables.members T)

pub record AppDb (T : AppTables) : Type 0 where
  pub apps : Table.State (AppTables.apps T)
  pub versions : Table.State (AppTables.versions T)
  pub assignments : Table.State (AppTables.assignments T)
  pub members : Table.State (AppTables.members T)
