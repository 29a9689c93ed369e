-- ===== src/Roles/Routes.antt =====
-- The handlers that change roles or give them to users, with the database and the cache as state.
-- The bodies have passed their Zod schemas; `number_text` writes a number in a message.
use mdm.Base.{
  ℕ, false, ◌&&◌, Option, none, some, List, [], ◌∷◌, map, ◌==◌, leb, str_eq, get_or, filter, find?,
  count_p, if◌then◌else◌, Result, ok,
}
use Prim.Native.String
use mdm.Base.Text.{Text, codes}
use mdm.Base.Table.{Table}
use mdm.Groups.Routes.{or_else}
use mdm.Http.{Caller, Refusal, refuse}
use mdm.Schema.{Uuid, Role, User, Tables, Db}
use mdm.Rbac.Cache.{Cache}
use mdm.Rbac.Permissions.{
  Refused, unauthorized, forbidden, invalidate_user_permissions, require_permission,
}

-- createRoleSchema
pub record CreateRole : Type 0 where
  pub name : String.String
  pub description : Option Text
  pub permissions : List Text

-- updateRoleSchema
pub record UpdateRole : Type 0 where
  pub name : Option String.String
  pub description : Option Text
  pub permissions : Option (List Text)

-- The requests, with their parameters and bodies.
pub data RoleRequest : Type 0 where
  create : CreateRole → RoleRequest
  update : Uuid → UpdateRole → RoleRequest
  delete : Uuid → RoleRequest
  assign : Uuid → Uuid → RoleRequest
  remove : Uuid → Uuid → RoleRequest

-- The data of the replies.
pub data RoleReply : Type 0 where
  role_data : Role → RoleReply
  user_role : Uuid → Uuid → RoleReply
  no_content : RoleReply

module _ (T : Tables) (C : Cache) where
  abbrev pub RoleState : Type 0
  RoleState = Db T × Cache.State C

  abbrev pub Answer : Type 0
  Answer = Result Refusal RoleReply × RoleState

  abbrev pub find_role : Uuid → Uuid → Db T → Option Role
  find_role id org w =
      find? (λ r. r.id == id && r.org_id == org) (Table.rows (Tables.roles T) w.roles)

  abbrev pub find_user : Uuid → Uuid → Db T → Option User
  find_user id org w =
      find? (λ u. u.id == id && u.org_id == org) (Table.rows (Tables.users T) w.users)

  abbrev pub new_role : CreateRole → Uuid → Uuid → ℕ → Role
  new_role body org id now = record {
    id = id;
    org_id = org;
    name = body.name;
    description = body.description;
    permissions = body.permissions;
    is_system = false;
    updated_at = now;
  }

  -- `POST /`
  unfoldable pub create_role : CreateRole → Uuid → Uuid → ℕ → RoleState → Answer
  create_role body org id now (w, s) =
      let role = new_role body org id now in
      (ok (role_data role), (record w { roles = Table.insert (Tables.roles T) role w.roles }, s))

  abbrev pub updated_role : UpdateRole → ℕ → Role → Role
  updated_role body now r = record r {
    name = get_or body.name r.name;
    description = or_else body.description r.description;
    permissions = get_or body.permissions r.permissions;
    updated_at = now;
  }

  abbrev pub write_role : Uuid → UpdateRole → ℕ → Db T → Db T
  write_role id body now w = record w {
    roles = Table.update (Tables.roles T) (λ r. r.id == id) (updated_role body now) w.roles;
  }

  abbrev pub users_with_role : Uuid → Db T → List Uuid
  users_with_role id w =
      map (λ u. u.id) (filter (λ u. u.role_id == id) (Table.rows (Tables.users T) w.users))

  -- `for (const u of usersWithRole) await invalidateUserPermissions(u.id)`
  abbrev pub invalidate_all : List Uuid → Cache.State C → Cache.State C
  invalidate_all [] s = s
  invalidate_all (u ∷ us) s = invalidate_all us (invalidate_user_permissions T C u s)

  -- `PATCH /:id`
  unfoldable pub update_role : Uuid → UpdateRole → Uuid → ℕ → RoleState → Answer
  update_role id body org now (w, s) = elim (find_role id org w) [
    | none ↦ (refuse 404 "Role not found", (w, s))
    | some existing ↦
        if existing.is_system
        then (refuse 403 "Cannot modify system roles", (w, s))
        else let later = write_role id body now w in
          (
            ok (role_data (updated_role body now existing)),
            (later, invalidate_all (users_with_role id later) s),
          )
  ]

  abbrev pub drop_role : Uuid → Db T → Db T
  drop_role id w = record w { roles = Table.delete (Tables.roles T) (λ r. r.id == id) w.roles }

  abbrev pub with_role : Uuid → ℕ → User → User
  with_role role now u = record u { role_id = role; updated_at = now }

  abbrev pub write_user_role : Uuid → Uuid → ℕ → Db T → Db T
  write_user_role user role now w = record w {
    users = Table.update (Tables.users T) (λ u. u.id == user) (with_role role now) w.users;
  }

  -- `POST /:id/users`
  unfoldable pub assign_role : Uuid → Uuid → Uuid → ℕ → RoleState → Answer
  assign_role id user org now (w, s) = elim (find_role id org w) [
    | none ↦ (refuse 404 "Role not found", (w, s))
    | some role ↦ elim (find_user user org w) [
      | none ↦ (refuse 404 "User not found", (w, s))
      | some found ↦ (
        ok (user_role user id),
        (write_user_role user id now w, invalidate_user_permissions T C user s),
      )
    ]
  ]

  abbrev pub find_viewer : Uuid → Db T → Option Role
  find_viewer org w =
      find? (λ r. r.org_id == org && (str_eq r.name "viewer" && r.is_system))
        (Table.rows (Tables.roles T) w.roles)

  abbrev pub find_holder : Uuid → Uuid → Uuid → Db T → Option User
  find_holder user org role w =
      find? (λ u. u.id == user && (u.org_id == org && u.role_id == role))
        (Table.rows (Tables.users T) w.users)

  -- `DELETE /:id/users/:userId`
  unfoldable pub remove_role : Uuid → Uuid → Uuid → ℕ → RoleState → Answer
  remove_role id user org now (w, s) = elim (find_viewer org w) [
    | none ↦ (refuse 500 "Viewer role not found", (w, s))
    | some viewer ↦ elim (find_holder user org id w) [
      | none ↦ (refuse 404 "User not found with this role", (w, s))
      | some found ↦ (
        ok no_content,
        (write_user_role user viewer.id now w, invalidate_user_permissions T C user s),
      )
    ]
  ]

  -- Where the pre-handler has answered, the handler does not run.
  abbrev pub passed : Option Refused → RoleState → (RoleState → Answer) → Answer
  passed none state handler = handler state
  passed (some unauthorized) state handler = (refuse 401 "Authentication required", state)
  passed (some (forbidden message)) state handler =
      (refuse 403 "Missing required permissions: settings:write", state)

  module _ (number_text : ℕ → String.String) where
    abbrev pub still_assigned : ℕ → String.String
    still_assigned n =
        String.◌++◌ "Cannot delete role: "
          (String.◌++◌ (number_text n) " user(s) are still assigned")

    -- `DELETE /:id`
    unfoldable pub delete_role : Uuid → Uuid → RoleState → Answer
    delete_role id org (w, s) = elim (find_role id org w) [
      | none ↦ (refuse 404 "Role not found", (w, s))
      | some existing ↦
          if existing.is_system
          then (refuse 403 "Cannot delete system roles", (w, s))
          else let user_count =
              count_p (λ u. u.role_id == id) (Table.rows (Tables.users T) w.users) in
            if leb 1 user_count
            then (refuse 409 (still_assigned user_count), (w, s))
            else (ok no_content, (drop_role id w, s))
    ]

    -- The handler of a route, for a caller of an organization, with the id that the database draws
    -- for a new role.
    unfoldable pub role_handler : RoleRequest → Uuid → Uuid → ℕ → RoleState → Answer
    unfolding create_role update_role delete_role assign_role remove_role
    role_handler (create body) org new now w = create_role body org new now w
    role_handler (update id body) org new now w = update_role id body org now w
    role_handler (delete id) org new now w = delete_role id org w
    role_handler (assign id user) org new now w = assign_role id user org now w
    role_handler (remove id user) org new now w = remove_role id user org now w

    -- A request: `requirePermission` of its route, which may fill the cache, and the handler.
    unfoldable pub handle_role : RoleRequest → Option Caller → Uuid → ℕ → RoleState → Answer
    unfolding require_permission role_handler
    handle_role q none new now state = (refuse 401 "Authentication required", state)
    handle_role q (some caller) new now (w, s) =
        let required = require_permission T C (codes "settings:write" ∷ []) (some caller) w s in
        passed required.0 (w, required.1) (role_handler q caller.org_id new now)
