-- ===== src/Examples/RoleCases.antt =====
-- Roles: a custom role whose permissions shrink while those of its user are cached.
use Prim.Native.String
use mdm.Base.{ℕ, ◌≡◌, refl, true, false, none, some, Option, List, [], ◌∷◌, ◌==◌, if◌then◌else◌}
use mdm.Base.Text.{Text, codes}
use mdm.Http.{Caller, refuse}
use mdm.Schema.{Uuid, Role, User, Db}
use mdm.Rbac.Cache.{Cache}
use mdm.Rbac.Permissions.{
  role_permissions, require_permission, resolve_permissions, matches_permission, first_part,
  behind_colon,
}
use mdm.Roles.Routes.{RoleRequest, update, delete, delete_role, role_handler, handle_role}
use mdm.Roles.Invariants.{orphans, handle_role-orphans}
use mdm.Examples.Fleet.{tables, tables-AreLawful, fleet}

-- A cache that never loses an entry.
abbrev memory : Cache
memory = record {
  State = Uuid → Option (List Text);
  get = λ user s. s user;
  set = λ ttl user ps s other. if user == other then some ps else s other;
  del = λ user s other. if user == other then none else s other;
}

abbrev operator : Role
operator = record {
  id = 41;
  org_id = 1;
  name = "operator";
  description = none;
  permissions = codes "devices:*" ∷ [];
  is_system = false;
  updated_at = 0;
}

abbrev operator_user : User
operator_user = record {
  id = 31;
  org_id = 1;
  role_id = 41;
  email = "op@example.org";
  password_hash = [];
  first_name = none;
  last_name = none;
  is_active = true;
  updated_at = 0;
}

abbrev manager_role : Role
manager_role = record operator { id = 42; name = "manager"; permissions = codes "settings:*" ∷ [] }

abbrev manager_user : User
manager_user = record operator_user { id = 32; role_id = 42; email = "m@example.org" }

-- A caller with the role of `manager_user`.
abbrev manager : Caller
manager = record { sub = 32; email = "m@example.org"; org_id = 1; role_id = 42; permissions = [] }

abbrev staffed : Db tables
staffed = record fleet {
  roles = manager_role ∷ operator ∷ fleet.roles;
  users = manager_user ∷ operator_user ∷ fleet.users;
}

abbrev cached : Cache.State memory
cached user = if 31 == user then some (codes "devices:*" ∷ []) else none

abbrev shrink : RoleRequest
shrink =
    update 41
      (record { name = none; description = none; permissions = some (codes "devices:read" ∷ []) })

abbrev decimal : ℕ → String.String
decimal n = "1"

-- A role that has a user is not deleted.
held_role :
    (handle_role tables memory decimal (delete 41) (some manager) 50 7 (staffed, cached)).0
    ≡ refuse 409 "Cannot delete role: 1 user(s) are still assigned"
unfolding handle_role role_handler delete_role require_permission resolve_permissions
    role_permissions matches_permission first_part behind_colon
held_role = refl

handle_role-orphans_example :
    orphans tables tables-AreLawful memory decimal
      (handle_role tables memory decimal (delete 41) (some manager) 50 7 (staffed, cached)).1.0
    ≡ 0
handle_role-orphans_example =
    handle_role-orphans tables tables-AreLawful memory decimal (delete 41) (some manager) 50 7
      staffed cached refl
