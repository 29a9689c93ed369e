-- ===== src/Examples/ScimCases.antt =====
-- SCIM: an identity provider that creates, patches and deactivates users of organization 1.
use mdm.Base.{
  ◌≡◌, ◌≤◌, ◌==◌, ◌++◌, refl, Bool, true, false, none, some, Option, List, [], ◌∷◌, arith, get_or,
  find?, count_p,
}
use mdm.Base.Text.{Text, codes}
use mdm.Base.Table.{Table, map_option}
use mdm.Http.{refuse}
use mdm.Schema.{Uuid, Json, boolean, null, string, Tables}
use mdm.Scim.Auth.{Organization, admit, scim_auth}
use mdm.Scim.Tokens.{holds_hash, scim_auth_lem}
use mdm.Scim.Patches.{add, replace, remove, missing, plain, object, PatchOp, no_updates, apply_ops}
use mdm.Scim.LastSet.{last_set, sets_active, sets_email, sets_name, apply_ops_lem}
use mdm.Scim.Routes.{Columns, patch_user, create_user, add_user, handle_scim}
use mdm.Scim.Isolation.{IsIsolated}
use mdm.Scim.Requests.{handle_scim-IsIsolated}
use mdm.Examples.Fleet.{tables, tables-AreLawful, fleet}

-- Stands for SHA-256.
abbrev digest : Text → Text
digest token = 35 ∷ token

abbrev provider : Organization
provider = record { id = 1; scim_token_hash = some (codes "#t0ken") }

abbrev organizations : List Organization
organizations =
    record { id = 2; scim_token_hash = none }
    ∷ record { id = 3; scim_token_hash = some (codes "#other") }
    ∷ provider
    ∷ []

scim_auth_lem_example :
    scim_auth 90 91 digest (some (codes "Bearer " ++ codes "t0ken")) organizations
    ≡ admit 90 91 digest (
        map_option
          (λ o. o.id)
          (find? (λ o. holds_hash (digest (codes "t0ken")) o.scim_token_hash) organizations))
scim_auth_lem_example = scim_auth_lem 90 91 digest (codes "t0ken") organizations refl

-- A deactivation whose value a later operation takes back, and names.
abbrev operations : List PatchOp
operations =
    record { op = replace; path = some "active"; value = plain (boolean false) }
    ∷ record { op = remove; path = some "name.givenName"; value = missing }
    ∷ record { op = add; path = none; value = object (codes "{}") (some (boolean true)) none }
    ∷ []

apply_ops_lem_example :
    ((apply_ops operations no_updates).is_active ≡ get_or (last_set sets_active operations) none)
    × ((apply_ops operations no_updates).email ≡ get_or (last_set sets_email operations) none)
    × ((apply_ops operations no_updates).first_name
        ≡ get_or (last_set (sets_name "name.givenName") operations) none)
    × ((apply_ops operations no_updates).last_name
        ≡ get_or (last_set (sets_name "name.familyName") operations) none)
apply_ops_lem_example = apply_ops_lem operations

last_active : get_or (last_set sets_active operations) none ≡ some (boolean true)
unfolding last_set
last_active = refl

-- The values that suit a column.
abbrev as_name : Json → Option (Option Text)
as_name null = some none
as_name (string t) = some (some t)
as_name j = none

abbrev as_boolean : Json → Option Bool
as_boolean (boolean b) = some b
as_boolean j = none

abbrev columns : Columns
columns = record { email = λ j. none; name = as_name; boolean = as_boolean; group_name = λ j. none }

user_ids_unique :
    (id : Uuid) → count_p (λ u. u.id == id) (Table.rows (Tables.users tables) fleet.users) ≤ 1
user_ids_unique id = ground arith

group_ids_unique :
    (id : Uuid) → count_p (λ g. g.id == id) (Table.rows (Tables.groups tables) fleet.groups) ≤ 1
group_ids_unique id = ground arith

handle_scim-IsIsolated_example :
    IsIsolated tables 1 fleet
      (handle_scim tables columns (patch_user 30 operations) [] 1 70 8 fleet).1
handle_scim-IsIsolated_example =
    handle_scim-IsIsolated tables tables-AreLawful columns (patch_user 30 operations) [] 1 70 8
      fleet user_ids_unique group_ids_unique

-- The organization has no viewer role, so no user is created.
no_viewer :
    (handle_scim tables columns
      (create_user (record {
        user_name = "new@example.org";
        first_email = none;
        given_name = none;
        family_name = none;
        active = true;
      }))
      []
      1
      70
      8
      fleet).0
    ≡ refuse 500 "An unexpected error occurred"
unfolding handle_scim add_user
no_viewer = refl
