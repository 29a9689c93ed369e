-- ===== src/Examples/AppCases.antt =====
-- The app service: versions and drift on the catalog.
use mdm.Base.{
  ◌≡◌, refl, Bool, true, false, ◌&&◌, none, some, [], ◌∷◌, ◌==◌, all, count_p, if◌then◌else◌,
}
use mdm.Base.Text.{codes}
use mdm.Base.Table.{Table}
use mdm.DynamicGroups.Membership.{is_nil}
use mdm.Apps.Model.{AppVersion, AppTables, AppDb}
use mdm.Apps.Service.{
  CreateVersion, create_version, is_version, rollback_version, get_version, detect_drift,
}
use mdm.Apps.Versions.{count_current, create_version_lem, rollback_version_lem}
use mdm.Apps.Drift.{complies, detect_drift-complies}
use mdm.Examples.Fleet.{app_tables, app_tables-AppTablesLaws, mail_version, catalog}

abbrev release : CreateVersion
release = record {
  version_code = 3;
  version_name = codes "3.0";
  file_url = codes "https://files.example.org/mail3";
  file_hash = [];
  file_size = 120;
  min_sdk_version = none;
  release_notes = none;
}

abbrev accepts_all : AppVersion → AppDb app_tables → Bool
accepts_all v w = true

mail_is_required : (detect_drift app_tables 1 [] catalog).0 ≡ 5 ∷ []
unfolding detect_drift
mail_is_required = refl

create_version_lem_example :
    (count_p
        (λ r. is_version app_tables 5 9 r && r.is_current)
        (Table.rows
          (AppTables.versions app_tables)
          (create_version app_tables accepts_all 5 release 9 catalog).1.versions)
      ≡ 1)
    × (count_current app_tables 5 (create_version app_tables accepts_all 5 release 9 catalog).1 ≡ 1)
create_version_lem_example =
    create_version_lem app_tables app_tables-AppTablesLaws accepts_all 5 release 9 catalog 5

version_six : get_version app_tables 5 6 catalog ≡ some (mail_version 6 1 false)
unfolding get_version
version_six = refl

rollback_version_lem_example :
    (count_p
        (λ r. is_version app_tables 5 6 r && r.is_current)
        (Table.rows
          (AppTables.versions app_tables)
          (rollback_version app_tables 5 6 catalog).1.versions)
      ≡ 1)
    × (count_current app_tables 5 (rollback_version app_tables 5 6 catalog).1
        ≡ (if 5 == 5 then 1 else count_current app_tables 5 catalog))
rollback_version_lem_example =
    rollback_version_lem app_tables app_tables-AppTablesLaws 5 6 catalog (mail_version 6 1 false) 5
      version_six refl

detect_drift-complies_example :
    (is_nil (detect_drift app_tables 1 [] catalog).0
      && is_nil (detect_drift app_tables 1 [] catalog).1)
    ≡ all (complies app_tables 1 [] catalog) (Table.rows (AppTables.apps app_tables) catalog.apps)
detect_drift-complies_example = detect_drift-complies app_tables 1 [] catalog
