-- ===== src/Scim/Routes.antt =====
-- The handlers. The bodies have passed their Zod schemas. A statement on users fails where it
-- would break the unique index on address and organization; the id `''` of no role is no UUID.
use mdm.Base.{
  ℕ, String, Bool, true, false, not, ◌&&◌, Option, none, some, List, [], ◌∷◌, ◌==◌, str_eq, get_or,
  find?, any, if◌then◌else◌, Result, ok,
}
use mdm.Base.Text.{Text, codes, join}
use mdm.Base.Table.{Table}
use mdm.DynamicGroups.Membership.{is_nil}
use mdm.Http.{Refusal, refuse, unexpected}
use mdm.Schema.{Uuid, Json, Group, static, Role, User, Tables, Db}
use mdm.Scim.Patches.{
  add, replace, remove, PatchOp, Updates, no_updates, as_column, is_path, apply_ops,
}

-- scimUserCreateSchema; the address of `emails[0]` if there is one.
pub record ScimUserBody : Type 0 where
  pub user_name : String
  pub first_email : Option String
  pub given_name : Option Text
  pub family_name : Option Text
  pub active : Bool

-- toScimUser
pub record ScimUser : Type 0 where
  pub id : Uuid
  pub user_name : String
  pub given_name : Text
  pub family_name : Text
  pub formatted : Text
  pub display_name : Text
  pub active : Bool

pub data ScimReply : Type 0 where
  user_data : ScimUser → ScimReply
  group_data : Uuid → Text → ScimReply
  no_content : ScimReply

pub data ScimRequest : Type 0 where
  create_user : ScimUserBody → ScimRequest
  replace_user : Uuid → ScimUserBody → ScimRequest
  patch_user : Uuid → List PatchOp → ScimRequest
  deactivate_user : Uuid → ScimRequest
  create_group : Text → ScimRequest
  patch_group : Uuid → List PatchOp → ScimRequest

-- What the driver and the server make of a JSON value for a column; none where they refuse it.
pub record Columns : Type 0 where
  pub email : Json → Option String
  pub name : Json → Option (Option Text)
  pub boolean : Json → Option Bool
  pub group_name : Json → Option Text

-- `.filter(Boolean)`
abbrev pub present : Option Text → List Text → List Text
present none rest = rest
present (some t) rest = if is_nil t then rest else t ∷ rest

abbrev pub full_name : User → Text
full_name u = join (codes " ") (present u.first_name (present u.last_name []))

unfoldable pub to_scim_user : User → ScimUser
to_scim_user u = record {
  id = u.id;
  user_name = u.email;
  given_name = get_or u.first_name [];
  family_name = get_or u.last_name [];
  formatted = full_name u;
  display_name = if is_nil (full_name u) then codes u.email else full_name u;
  active = u.is_active;
}

abbrev pub body_email : ScimUserBody → String
body_email body = get_or body.first_email body.user_name

-- A column's new value, where the update sets one.
abbrev pub column {ℓ} : {A : Type ℓ} → (Json → Option A) → Option Json → A → Option A
column convert none old = some old
column convert (some j) old = convert j

-- `set({ ...updates, updatedAt })`, if each value suits its column.
unfoldable pub patched : Columns → Updates → ℕ → User → Option User
patched columns u now user = elim (column columns.email u.email user.email) [
  | none ↦ none
  | some email ↦ elim (column columns.name u.first_name user.first_name) [
    | none ↦ none
    | some first ↦ elim (column columns.name u.last_name user.last_name) [
      | none ↦ none
      | some last ↦ elim (column columns.boolean u.is_active user.is_active) [
        | none ↦ none
        | some active ↦ some (record user {
          email = email;
          first_name = first;
          last_name = last;
          is_active = active;
          updated_at = now;
        })
      ]
    ]
  ]
]

module _ (T : Tables) where
  abbrev pub Answer : Type 0
  Answer = Result Refusal ScimReply × Db T

  abbrev pub find_user : Uuid → Uuid → Db T → Option User
  find_user id org w =
      find? (λ u. u.id == id && u.org_id == org) (Table.rows (Tables.users T) w.users)

  -- `users_email_org_idx`: has another user of the organization the address?
  abbrev pub email_taken : Uuid → Uuid → String → Db T → Bool
  email_taken id org email w =
      any (λ u. not (u.id == id) && (u.org_id == org && str_eq u.email email))
        (Table.rows (Tables.users T) w.users)

  -- The columns that the handlers set, as in the given row.
  abbrev pub with_columns : User → User → User
  with_columns row u = record u {
    email = row.email;
    first_name = row.first_name;
    last_name = row.last_name;
    is_active = row.is_active;
    updated_at = row.updated_at;
  }

  -- `db.update(users).set(…).where(eq(users.id, id))`, where `row` is the row behind it.
  abbrev pub write_user : Uuid → User → Db T → Db T
  write_user id row w = record w {
    users = Table.update (Tables.users T) (λ u. u.id == id) (with_columns row) w.users;
  }

  abbrev pub store_user : Uuid → User → Db T → Answer
  store_user id row w =
      if email_taken id row.org_id row.email w
      then (unexpected, w)
      else (ok (user_data (to_scim_user row)), write_user id row w)

  abbrev pub new_user : ScimUserBody → Text → Uuid → Uuid → Uuid → ℕ → User
  new_user body password org role id now = record {
    id = id;
    org_id = org;
    role_id = role;
    email = body_email body;
    password_hash = password;
    first_name = body.given_name;
    last_name = body.family_name;
    is_active = body.active;
    updated_at = now;
  }

  abbrev pub find_viewer : Uuid → Db T → Option Role
  find_viewer org w =
      find? (λ r. r.org_id == org && (str_eq r.name "viewer" && r.is_system))
        (Table.rows (Tables.roles T) w.roles)

  -- `POST /Users`, with the placeholder for the hash of a password.
  unfoldable pub add_user : ScimUserBody → Text → Uuid → Uuid → ℕ → Db T → Answer
  add_user body password org id now w =
      if any (λ u. str_eq u.email (body_email body) && u.org_id == org)
        (Table.rows (Tables.users T) w.users)
      then (refuse 409 "User already exists", w)
      else elim (find_viewer org w) [
        | none ↦ (unexpected, w)
        | some viewer ↦
            let user = new_user body password org viewer.id id now in
            (
              ok (user_data (to_scim_user user)),
              record w { users = Table.insert (Tables.users T) user w.users },
            )
      ]

  abbrev pub replaced : ScimUserBody → ℕ → User → User
  replaced body now u = record u {
    email = body_email body;
    first_name = body.given_name;
    last_name = body.family_name;
    is_active = body.active;
    updated_at = now;
  }

  -- `PUT /Users/:id`
  unfoldable pub put_user : Uuid → ScimUserBody → Uuid → ℕ → Db T → Answer
  put_user id body org now w = elim (find_user id org w) [
    | none ↦ (refuse 404 "User not found", w)
    | some existing ↦ store_user id (replaced body now existing) w
  ]

  -- `PATCH /Users/:id`
  unfoldable pub change_user : Columns → Uuid → List PatchOp → Uuid → ℕ → Db T → Answer
  change_user columns id ops org now w = elim (find_user id org w) [
    | none ↦ (refuse 404 "User not found", w)
    | some existing ↦ elim (patched columns (apply_ops ops no_updates) now existing) [
      | none ↦ (unexpected, w)
      | some row ↦ store_user id row w
    ]
  ]

  -- `DELETE /Users/:id`
  unfoldable pub delete_user : Uuid → Uuid → ℕ → Db T → Answer
  delete_user id org now w = elim (find_user id org w) [
    | none ↦ (refuse 404 "User not found", w)
    | some existing ↦
        (ok no_content, write_user id (record existing { is_active = false; updated_at = now }) w)
  ]

  abbrev pub new_scim_group : Text → Uuid → Uuid → ℕ → Group
  new_scim_group name org id now = record {
    id = id;
    org_id = org;
    parent_id = none;
    name = name;
    description = some (codes "Created via SCIM provisioning");
    type = static;
    is_dynamic = false;
    dynamic_filter = none;
    rules = none;
    depth = 0;
    updated_at = now;
  }

  -- `POST /Groups`
  unfoldable pub add_group : Text → Uuid → Uuid → ℕ → Db T → Answer
  add_group name org id now w = (
    ok (group_data id name),
    record w { groups = Table.insert (Tables.groups T) (new_scim_group name org id now) w.groups },
  )

  abbrev pub is_rename : PatchOp → Bool
  is_rename p =
      elim p.op [ add ↦ true | replace ↦ true | remove ↦ false ] && is_path p.path "displayName"

  abbrev pub renamed : Text → ℕ → Group → Group
  renamed name now g = record g { name = name; updated_at = now }

  -- `set({ name: op.value, updatedAt })`: a name where the operation has none is left alone.
  abbrev pub write_group_name : Columns → Uuid → PatchOp → ℕ → Db T → Option (Db T)
  write_group_name columns id p now w = elim (as_column p.value) [
    | none ↦ some (record w {
      groups =
          Table.update (Tables.groups T) (λ g. g.id == id) (λ g. record g { updated_at = now })
            w.groups;
    })
    | some j ↦ elim (columns.group_name j) [
      | none ↦ none
      | some name ↦ some (record w {
        groups = Table.update (Tables.groups T) (λ g. g.id == id) (renamed name now) w.groups;
      })
    ]
  ]

  -- The loop over the operations: whether every statement succeeded, and the database behind the loop.
  unfoldable pub rename_group : Columns → Uuid → List PatchOp → ℕ → Db T → Bool × Db T
  rename_group columns id [] now w = (true, w)
  rename_group columns id (p ∷ ps) now w =
      if is_rename p
      then elim (write_group_name columns id p now w) [
        | none ↦ (false, w)
        | some w' ↦ rename_group columns id ps now w'
      ]
      else rename_group columns id ps now w

  -- `PATCH /Groups/:id`
  unfoldable pub change_group : Columns → Uuid → List PatchOp → Uuid → ℕ → Db T → Answer
  unfolding rename_group
  change_group columns id ops org now w =
      elim (find? (λ g. g.id == id && g.org_id == org) (Table.rows (Tables.groups T) w.groups)) [
        | none ↦ (refuse 404 "Group not found", w)
        | some existing ↦
            let (done, later) = rename_group columns id ops now w in
            if done
            then elim (find? (λ g. g.id == id) (Table.rows (Tables.groups T) later.groups)) [
              | none ↦ (unexpected, later)
              | some g ↦ (ok (group_data g.id g.name), later)
            ]
            else (unexpected, later)
      ]

  -- A request for an organization, with the id that the database draws for a new row.
  unfoldable pub handle_scim : Columns → ScimRequest → Text → Uuid → Uuid → ℕ → Db T → Answer
  unfolding add_user put_user change_user delete_user add_group change_group
  handle_scim columns (create_user body) password org new now w =
      add_user body password org new now w
  handle_scim columns (replace_user id body) password org new now w = put_user id body org now w
  handle_scim columns (patch_user id ops) password org new now w =
      change_user columns id ops org now w
  handle_scim columns (deactivate_user id) password org new now w = delete_user id org now w
  handle_scim columns (create_group name) password org new now w = add_group name org new now w
  handle_scim columns (patch_group id ops) password org new now w =
      change_group columns id ops org now w
