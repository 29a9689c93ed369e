-- ===== src/Ldap/Users.antt =====
-- `LdapService.syncUsers`. The search of the directory is a call of ldapjs: its entries or its
-- error are given, and so are the ids that the database draws, the time of a write, and of each
-- round whether a statement of it fails.
use Prim.Native.String
use mdm.Base.{
  ℕ, Bool, true, ◌&&◌, Option, none, some, List, [], ◌∷◌, ◌++◌, ◌+◌, ◌==◌, str_eq, find?,
  if◌then◌else◌, Result, ok, err,
}
use mdm.Base.Text.{Text, codes}
use mdm.Base.Table.{Table}
use mdm.Schema.{Uuid, User, Role, Tables, Db}

-- The value of an attribute
pub data AttrValue : Type 0 where
  single : String.String → AttrValue
  several : List String.String → AttrValue

-- `LdapEntry`
pub record LdapEntry : Type 0 where
  pub dn : String.String
  pub attributes : List (String.String × AttrValue)

-- `LdapConfig.userMapping`, as far as the synchronization reads it
pub record UserMapping : Type 0 where
  pub email : String.String
  pub first_name : String.String
  pub last_name : String.String

abbrev first_value : Option (String.String × AttrValue) → Option String.String
first_value none = none
first_value (some (key, single v)) = some v
first_value (some (key, several [])) = none
first_value (some (key, several (v ∷ vs))) = some v

-- `getAttr`
unfoldable pub get_attr : LdapEntry → String.String → Option String.String
get_attr entry name = first_value (find? (λ a. str_eq a.0 name) entry.attributes)

-- A text that is given and not empty
abbrev pub non_empty : Option String.String → Option String.String
non_empty none = none
non_empty (some s) = if str_eq s "" then none else some s

-- `this.getAttr(…) || ''`
abbrev or_empty : Option String.String → Text
or_empty none = []
or_empty (some s) = codes s

unfoldable pub email_of : UserMapping → LdapEntry → Option String.String
unfolding get_attr
email_of mapping entry = non_empty (get_attr entry mapping.email)

unfoldable pub first_name_of : UserMapping → LdapEntry → Text
unfolding get_attr
first_name_of mapping entry = or_empty (get_attr entry mapping.first_name)

unfoldable pub last_name_of : UserMapping → LdapEntry → Text
unfolding get_attr
last_name_of mapping entry = or_empty (get_attr entry mapping.last_name)

abbrev pub renamed_user : Text → Text → ℕ → User → User
renamed_user first last now u = record u {
  first_name = some first;
  last_name = some last;
  updated_at = now;
}

abbrev pub ldap_user : Uuid → Uuid → String.String → Text → Text → Uuid → ℕ → User
ldap_user org role email first last id now = record {
  id = id;
  org_id = org;
  role_id = role;
  email = email;
  password_hash = codes "ldap-auth";
  first_name = some first;
  last_name = some last;
  is_active = true;
  updated_at = now;
}

-- An entry of the search, the id that a new user would get, and the message with which a statement
-- of its round fails, if one does.
abbrev pub Found : Type 0
Found = LdapEntry × (Uuid × Option String.String)

-- The counter, the errors, and the database.
pub record Synced (T : Tables) : Type 0 where
  pub synced : ℕ
  pub errors : List String.String
  pub db : Db T

module _ (T : Tables) where
  abbrev pub has_email : Uuid → String.String → User → Bool
  has_email org email u = str_eq u.email email && u.org_id == org

  -- The upsert of a user.
  unfoldable pub upsert_user : Uuid → Uuid → String.String → Text → Text → Uuid → ℕ → Db T → Db T
  upsert_user org role email first last id now w =
      elim (find? (has_email org email) (Table.rows (Tables.users T) w.users)) [
        | none ↦ record w {
          users =
              Table.insert (Tables.users T) (ldap_user org role email first last id now) w.users;
        }
        | some existing ↦ record w {
          users =
              Table.update (Tables.users T) (λ u. u.id == existing.id) (renamed_user first last now)
                w.users;
        }
      ]

  -- The upsert in a round and its `catch`.
  unfoldable pub sync_email :
      UserMapping → Uuid → Uuid → ℕ → Found → String.String → Synced T → Synced T
  unfolding upsert_user first_name_of last_name_of
  sync_email mapping org role now (entry, (id, none)) email s = record s {
    synced = s.synced + 1;
    db =
        upsert_user org role email (first_name_of mapping entry) (last_name_of mapping entry) id now
          s.db;
  }
  sync_email mapping org role now (entry, (id, some message)) email s = record s {
    errors =
        s.errors
        ++ String.◌++◌ "Failed to sync user " (String.◌++◌ entry.dn (String.◌++◌ ": " message))
          ∷ [];
  }

  -- One round of the loop over the entries.
  unfoldable pub sync_entry : UserMapping → Uuid → Uuid → ℕ → Found → Synced T → Synced T
  unfolding sync_email email_of
  sync_entry mapping org role now e s = elim (email_of mapping e.0) [
    | none ↦ s
    | some email ↦ sync_email mapping org role now e email s
  ]

  abbrev pub sync_entries : UserMapping → Uuid → Uuid → ℕ → List Found → Synced T → Synced T
  sync_entries mapping org role now [] s = s
  sync_entries mapping org role now (e ∷ es) s =
      sync_entries mapping org role now es (sync_entry mapping org role now e s)

  -- The role `Viewer` of the organization.
  abbrev pub is_default_role : Uuid → Role → Bool
  is_default_role org r = r.org_id == org && str_eq r.name "Viewer"

  abbrev pub synced_with : Option Role → UserMapping → Uuid → ℕ → List Found → Db T → Synced T
  synced_with none mapping org now es w = record {
    synced = 0;
    errors = "No default \"Viewer\" role found for org" ∷ [];
    db = w;
  }
  synced_with (some role) mapping org now es w =
      sync_entries mapping org role.id now es (record { synced = 0; errors = []; db = w })

  unfoldable pub sync_users :
      Result String.String (List Found) → UserMapping → Uuid → ℕ → Db T → Synced T
  unfolding sync_entry
  sync_users (err message) mapping org now w = record {
    synced = 0;
    errors = String.◌++◌ "LDAP user sync error: " message ∷ [];
    db = w;
  }
  sync_users (ok entries) mapping org now w =
      synced_with (find? (is_default_role org) (Table.rows (Tables.roles T) w.roles)) mapping org
        now entries w
