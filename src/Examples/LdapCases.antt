-- ===== src/Examples/LdapCases.antt =====
-- A directory with an address that is known, a new one, and an entry without one.
use mdm.Base.{
  ◌≡◌, refl, ◌==◌, not, ◌&&◌, true, none, some, length, List, [], ◌∷◌, any, count_p, arith,
  if◌then◌else◌, ok,
}
use mdm.Schema.{Role, Db}
use mdm.Ldap.Users.{
  Found, UserMapping, single, several, Synced, get_attr, email_of, first_name_of, last_name_of,
  upsert_user, sync_email, sync_entry, sync_users,
}
use mdm.Ldap.Upserts.{is_taken, is_refused, is_for, users_with, HasUniqueEmails, sync_users_lem}
use mdm.Examples.Fleet.{tables, tables-AreLawful, fleet}

abbrev viewer : Role
viewer = record {
  id = 41;
  org_id = 1;
  name = "Viewer";
  description = none;
  permissions = [];
  is_system = true;
  updated_at = 0;
}

abbrev directory_db : Db tables
directory_db = record fleet { roles = viewer ∷ [] }

abbrev mapping : UserMapping
mapping = record { email = "mail"; first_name = "givenName"; last_name = "sn" }

abbrev entries : List Found
entries =
    (
      record {
        dn = "cn=ops";
        attributes =
            ("mail", several ("ops@example.org" ∷ "o@example.org" ∷ []))
            ∷ ("givenName", single "Ada")
            ∷ [];
      },
      (90, none),
    )
    ∷ (record { dn = "cn=new"; attributes = ("mail", single "new@example.org") ∷ [] }, (91, none))
    ∷ (
      record { dn = "cn=bad"; attributes = ("mail", single "bad@example.org") ∷ [] },
      (93, some "value too long"),
    )
    ∷ (record { dn = "cn=printer"; attributes = [] }, (92, none))
    ∷ []

two_synced : (sync_users tables (ok entries) mapping 1 7 directory_db).synced ≡ 2
unfolding sync_users sync_entry sync_email email_of get_attr upsert_user first_name_of last_name_of
two_synced = refl

directory_db-HasUniqueEmails : HasUniqueEmails tables tables-AreLawful 1 directory_db
directory_db-HasUniqueEmails email = ground arith

abbrev after : Synced tables
after = sync_users tables (ok entries) mapping 1 7 directory_db

sync_users_lem_example :
    (after.synced ≡ count_p (is_taken mapping) entries)
    × (length after.errors ≡ count_p (is_refused mapping) entries)
    × HasUniqueEmails tables tables-AreLawful 1 after.db
    × (users_with tables tables-AreLawful 1 "new@example.org" after.db ≡ (
        if any (is_for mapping "new@example.org") entries
        then 1
        else users_with tables tables-AreLawful 1 "new@example.org" directory_db))
    × (count_p (λ u. not (u.role_id == 41) && u.is_active) after.db.users
        ≡ count_p (λ u. not (u.role_id == 41) && u.is_active) directory_db.users)
sync_users_lem_example =
    sync_users_lem tables tables-AreLawful 1 entries mapping 7 directory_db viewer "new@example.org"
      (λ u. u.is_active) (λ f l u. refl) refl directory_db-HasUniqueEmails
