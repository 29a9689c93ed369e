-- ===== src/Examples/Fleet.antt =====
-- A database of an organization with three devices, and its app catalog.
use mdm.Base.{ℕ, String, Bool, true, false, Option, none, some, List, [], ◌∷◌}
use mdm.Base.Text.{Text, codes}
use mdm.Base.Table.{list_table, list_table-IsLawful}
use mdm.DynamicGroups.Rules.{one, Rule, condition}
use mdm.Schema.{Uuid, Group, static, dynamic, Tables, AreLawful, Db}
use mdm.Http.{Caller}
use mdm.Apps.Model.{App, AppVersion, AppTables, AppTablesLaws, AppDb}

abbrev pub tables : Tables
tables = record {
  devices = list_table _;
  groups = list_table _;
  members = list_table _;
  policies = list_table _;
  versions = list_table _;
  assignments = list_table _;
  audit = list_table _;
  roles = list_table _;
  users = list_table _;
  keys = list_table _;
}

pub tables-AreLawful : AreLawful tables
tables-AreLawful = record {
  devices = list_table-IsLawful _;
  groups = list_table-IsLawful _;
  members = list_table-IsLawful _;
  policies = list_table-IsLawful _;
  versions = list_table-IsLawful _;
  assignments = list_table-IsLawful _;
  audit = list_table-IsLawful _;
  roles = list_table-IsLawful _;
  users = list_table-IsLawful _;
  keys = list_table-IsLawful _;
}

abbrev pub inherits_none : String → Option Text
inherits_none field = none

abbrev pub uuid_text : Uuid → Text
uuid_text id = 48 ∷ id ∷ []

abbrev pub pixels : Rule
pixels = condition (record { field = "model"; op = "eq"; value = one (codes "Pixel") })

abbrev pub pixel_group : Group
pixel_group = record {
  id = 10;
  org_id = 1;
  parent_id = none;
  name = codes "Pixels";
  description = none;
  type = dynamic;
  is_dynamic = true;
  dynamic_filter = some pixels;
  rules = some pixels;
  depth = 0;
  updated_at = 0;
}

abbrev pub kiosk_group : Group
kiosk_group = record {
  id = 11;
  org_id = 1;
  parent_id = some 10;
  name = codes "Kiosks";
  description = none;
  type = static;
  is_dynamic = false;
  dynamic_filter = none;
  rules = none;
  depth = 1;
  updated_at = 0;
}

abbrev pub caller : Caller
caller = record { sub = 30; email = "ops@example.org"; org_id = 1; role_id = 40; permissions = [] }

abbrev pub fleet : Db tables
fleet = record {
  devices =
      record { id = 1; org_id = 1 }
      ∷ record { id = 2; org_id = 1 }
      ∷ record { id = 3; org_id = 1 }
      ∷ [];
  groups = pixel_group ∷ kiosk_group ∷ [];
  members =
      record { group_id = 10; device_id = 1 }
      ∷ record { group_id = 10; device_id = 2 }
      ∷ record { group_id = 11; device_id = 3 }
      ∷ [];
  policies = [];
  versions = [];
  assignments = [];
  audit = [];
  roles =
      record {
        id = 40;
        org_id = 1;
        name = "admin";
        description = none;
        permissions = [];
        is_system = true;
        updated_at = 0;
      }
      ∷ [];
  users =
      record {
        id = 30;
        org_id = 1;
        role_id = 40;
        email = "ops@example.org";
        password_hash = [];
        first_name = none;
        last_name = none;
        is_active = true;
        updated_at = 0;
      }
      ∷ [];
  keys = [];
}

-- The server of the example finds the devices 2 and 3, whatever it is asked.
abbrev pub finds_two : Db tables → Text → Option (List Uuid)
finds_two w query = some (2 ∷ 3 ∷ [])

abbrev pub app_tables : AppTables
app_tables = record {
  apps = list_table _;
  versions = list_table _;
  assignments = list_table _;
  members = list_table _;
}

pub app_tables-AppTablesLaws : AppTablesLaws app_tables
app_tables-AppTablesLaws = record {
  apps = list_table-IsLawful _;
  versions = list_table-IsLawful _;
  assignments = list_table-IsLawful _;
  members = list_table-IsLawful _;
}

abbrev pub mail : App
mail = record {
  id = 5;
  name = codes "Mail";
  package_name = "org.example.mail";
  description = none;
  icon_url = none;
  platform = "android";
  type = "enterprise";
  is_public = true;
  org_id = 1;
  updated_at = 0;
}

abbrev pub mail_version : Uuid → ℕ → Bool → AppVersion
mail_version id code is_current = record {
  id = id;
  app_id = 5;
  version_code = code;
  version_name = codes "v";
  file_url = codes "https://files.example.org/mail";
  file_hash = [];
  file_size = 100;
  min_sdk_version = none;
  release_notes = none;
  is_current = is_current;
}

abbrev pub catalog : AppDb app_tables
catalog = record {
  apps = mail ∷ [];
  versions = mail_version 6 1 false ∷ mail_version 7 2 true ∷ [];
  assignments =
      record {
        id = 8;
        app_id = 5;
        target_type = "group";
        target_id = 10;
        install_type = "required";
      }
      ∷ [];
  members = record { group_id = 10; device_id = 1 } ∷ [];
}
