-- ===== src/Apps/Service.antt =====
-- The operations. Ids that the database draws and the time are arguments, and so is `accepts`,
-- whether the server takes a new version's row: where it does not, the transaction of
-- `createVersion` is rolled back. A message to NATS is a value, sent while `connected`.
use mdm.Base.{
  ℕ, String, Bool, true, false, not, ◌&&◌, ◌||◌, Option, none, some, List, [], ◌∷◌, map, ◌==◌,
  str_eq, get_or, any, filter, find?, if◌then◌else◌,
}
use mdm.Base.Text.{Text}
use mdm.Base.Table.{Table}
use mdm.DynamicGroups.Membership.{is_member}
use mdm.Groups.Routes.{Given, absent, given, given_or}
use mdm.Schema.{Uuid}
use mdm.Apps.Model.{App, AppVersion, AppAssignment, InstalledAppInfo, AppTables, AppDb}

-- The argument of `createApp`.
pub record CreateApp : Type 0 where
  pub name : Text
  pub package_name : String
  pub description : Option Text
  pub platform : String
  pub type : Option String
  pub is_public : Option Bool
  pub org_id : Uuid

-- The argument of `updateApp`.
pub record UpdateApp : Type 0 where
  pub name : Given Text
  pub description : Given (Option Text)
  pub is_public : Given Bool
  pub icon_url : Given (Option Text)

-- The argument of `createVersion`.
pub record CreateVersion : Type 0 where
  pub version_code : ℕ
  pub version_name : Text
  pub file_url : Text
  pub file_hash : Text
  pub file_size : ℕ
  pub min_sdk_version : Option ℕ
  pub release_notes : Option Text

-- The argument of `createAssignment`.
pub record CreateAssignment : Type 0 where
  pub target_type : String
  pub target_id : Uuid
  pub install_type : String

-- The message `app.assigned`.
pub record AssignedEvent : Type 0 where
  pub app_id : Uuid
  pub assignment_id : Uuid
  pub target_type : String
  pub target_id : Uuid
  pub install_type : String
  pub action : String

-- The message `command.create`.
pub record CommandRequest : Type 0 where
  pub device_id : Uuid
  pub command_type : String
  pub app_id : Uuid
  pub package_name : Option String
  pub download_url : Option Text

abbrev pub is_given {ℓ} : {A : Type ℓ} → Given A → Bool
is_given absent = false
is_given (given a) = true

-- Each package name once (`SELECT DISTINCT`).
abbrev pub has_name : List String → String → Bool
has_name names s = any (λ t. str_eq t s) names

unfoldable pub distinct_names : List String → List String
distinct_names [] = []
distinct_names (s ∷ names) =
    let rest = distinct_names names in if has_name rest s then rest else s ∷ rest

module _ (T : AppTables) where
  unfoldable pub get_app : Uuid → AppDb T → Option App
  get_app id w = find? (λ a. a.id == id) (Table.rows (AppTables.apps T) w.apps)

  unfoldable pub create_app : CreateApp → Uuid → ℕ → AppDb T → App × AppDb T
  create_app body new_id now w =
      let a : App = record {
        id = new_id;
        name = body.name;
        package_name = body.package_name;
        description = body.description;
        icon_url = none;
        platform = body.platform;
        type = get_or body.type "enterprise";
        is_public = get_or body.is_public false;
        org_id = body.org_id;
        updated_at = now;
      } in
      (a, record w { apps = Table.insert (AppTables.apps T) a w.apps })

  unfoldable pub updated_app : UpdateApp → ℕ → App → App
  updated_app body now a = record a {
    name = given_or body.name a.name;
    description = given_or body.description a.description;
    is_public = given_or body.is_public a.is_public;
    icon_url = given_or body.icon_url a.icon_url;
    updated_at = now;
  }

  unfoldable pub update_app : Uuid → UpdateApp → ℕ → AppDb T → Option App × AppDb T
  unfolding get_app updated_app
  update_app id body now w =
      let w' = record w {
        apps = Table.update (AppTables.apps T) (λ a. a.id == id) (updated_app body now) w.apps;
      } in
      if is_given body.name
        || is_given body.description
        || is_given body.is_public
        || is_given body.icon_url
      then (elim (get_app id w) [ none ↦ none | some a ↦ some (updated_app body now a) ], w')
      else (get_app id w, w)

  unfoldable pub delete_app : Uuid → AppDb T → Bool × AppDb T
  delete_app id w = (
    any (λ a. a.id == id) (Table.rows (AppTables.apps T) w.apps),
    record w { apps = Table.delete (AppTables.apps T) (λ a. a.id == id) w.apps },
  )

  -- `UPDATE app_versions SET is_current = false WHERE app_id = $1`
  abbrev pub clear_current :
      Uuid → Table.State (AppTables.versions T) → Table.State (AppTables.versions T)
  clear_current app =
      Table.update (AppTables.versions T) (λ v. v.app_id == app)
        (λ v. record v { is_current = false })

  abbrev pub new_version : Uuid → CreateVersion → Uuid → AppVersion
  new_version app body new_id = record {
    id = new_id;
    app_id = app;
    version_code = body.version_code;
    version_name = body.version_name;
    file_url = body.file_url;
    file_hash = body.file_hash;
    file_size = body.file_size;
    min_sdk_version = body.min_sdk_version;
    release_notes = body.release_notes;
    is_current = true;
  }

  -- `none` is the exception that the caller sees behind a rollback.
  unfoldable pub create_version :
      (AppVersion → AppDb T → Bool)
      → Uuid
      → CreateVersion
      → Uuid
      → AppDb T
      → Option AppVersion × AppDb T
  create_version accepts app body new_id w =
      let cleared = record w { versions = clear_current app w.versions } in
      let v = new_version app body new_id in
      if accepts v cleared
      then (
        some v,
        record cleared { versions = Table.insert (AppTables.versions T) v cleared.versions },
      )
      else (none, w)

  abbrev pub is_version : Uuid → Uuid → AppVersion → Bool
  is_version app version v = v.id == version && v.app_id == app

  unfoldable pub get_version : Uuid → Uuid → AppDb T → Option AppVersion
  get_version app version w =
      find? (is_version app version) (Table.rows (AppTables.versions T) w.versions)

  unfoldable pub rollback_version : Uuid → Uuid → AppDb T → Option AppVersion × AppDb T
  unfolding get_version
  rollback_version app version w = elim (get_version app version w) [
    | none ↦ (none, w)
    | some v ↦ (
      some (record v { is_current = true }),
      record w {
        versions =
            Table.update (AppTables.versions T) (is_version app version)
              (λ v. record v { is_current = true }) (clear_current app w.versions);
      },
    )
  ]

  abbrev pub assigned_event : Uuid → Uuid → CreateAssignment → String → AssignedEvent
  assigned_event app id body action = record {
    app_id = app;
    assignment_id = id;
    target_type = body.target_type;
    target_id = body.target_id;
    install_type = body.install_type;
    action = action;
  }

  unfoldable pub create_assignment :
      Bool → Uuid → CreateAssignment → Uuid → AppDb T → AppAssignment × List AssignedEvent × AppDb T
  create_assignment connected app body new_id w =
      let a : AppAssignment = record {
        id = new_id;
        app_id = app;
        target_type = body.target_type;
        target_id = body.target_id;
        install_type = body.install_type;
      } in
      let w' = record w { assignments = Table.insert (AppTables.assignments T) a w.assignments } in
      if not connected
      then (a, [], w')
      else if str_eq body.install_type "required"
      then (a, assigned_event app new_id body "INSTALL_APP" ∷ [], w')
      else if str_eq body.install_type "prohibited"
      then (a, assigned_event app new_id body "UNINSTALL_APP" ∷ [], w')
      else (a, [], w')

  unfoldable pub delete_assignment : Uuid → Uuid → AppDb T → Bool × AppDb T
  delete_assignment app assignment w = (
    any (λ a. a.id == assignment && a.app_id == app)
        (Table.rows (AppTables.assignments T) w.assignments),
    record w {
      assignments =
          Table.delete (AppTables.assignments T) (λ a. a.id == assignment && a.app_id == app)
            w.assignments;
    },
  )

  -- Does an assignment reach a device, by itself or through a group of it?
  unfoldable pub reaches : Uuid → AppDb T → AppAssignment → Bool
  reaches device w a =
      str_eq a.target_type "device" && a.target_id == device
      || str_eq a.target_type "group"
        && any (is_member a.target_id device) (Table.rows (AppTables.members T) w.members)

  -- The apps that have an assignment of a kind which reaches a device.
  unfoldable pub assigned_apps : (AppAssignment → Bool) → AppDb T → List App
  assigned_apps p w =
      filter
        (λ a.
          any (λ aa. aa.app_id == a.id && p aa)
            (Table.rows (AppTables.assignments T) w.assignments))
        (Table.rows (AppTables.apps T) w.apps)

  -- `getStoreApps`, up to the order by name.
  unfoldable pub get_store_apps : Option Uuid → AppDb T → List App
  unfolding reaches assigned_apps
  get_store_apps none w = filter (λ a. a.is_public) (Table.rows (AppTables.apps T) w.apps)
  get_store_apps (some device) w = assigned_apps (reaches device w) w

  abbrev pub is_installed : List InstalledAppInfo → String → Bool
  is_installed installed name = any (λ (i : InstalledAppInfo). str_eq i.package_name name) installed

  unfoldable pub detect_drift : Uuid → List InstalledAppInfo → AppDb T → List Uuid × List String
  unfolding reaches assigned_apps distinct_names
  detect_drift device installed w =
      let required =
        assigned_apps (λ aa. str_eq aa.install_type "required" && reaches device w aa) w in
      let prohibited =
        assigned_apps (λ aa. str_eq aa.install_type "prohibited" && reaches device w aa) w in
      (
        map (λ a. a.id) (filter (λ a. not (is_installed installed a.package_name)) required),
        filter (is_installed installed) (distinct_names (map (λ a. a.package_name) prohibited)),
      )

  -- The devices that a message of `app.assigned` is about.
  unfoldable pub target_devices : AssignedEvent → AppDb T → List Uuid
  target_devices e w =
      if str_eq e.target_type "device"
      then e.target_id ∷ []
      else if str_eq e.target_type "group"
      then map (λ m. m.device_id)
          (filter (λ m. m.group_id == e.target_id) (Table.rows (AppTables.members T) w.members))
      else []

  abbrev pub current_url : Uuid → AppDb T → Option Text
  current_url app w =
      elim (find? (λ v. v.app_id == app && v.is_current)
        (Table.rows (AppTables.versions T) w.versions)) [ none ↦ none | some v ↦ some v.file_url ]

  abbrev pub package_of : Uuid → AppDb T → Option String
  package_of app w = elim (get_app app w) [ none ↦ none | some a ↦ some a.package_name ]

  -- The subscriber's round for one message, with the requests that it publishes.
  unfoldable pub handle_assigned : AssignedEvent → AppDb T → List CommandRequest
  unfolding get_app target_devices
  handle_assigned e w =
      let url = if str_eq e.action "INSTALL_APP" then current_url e.app_id w else none in
      map
        (λ (d : Uuid). record {
          device_id = d;
          command_type = e.action;
          app_id = e.app_id;
          package_name = package_of e.app_id w;
          download_url = url;
        })
        (target_devices e w)
