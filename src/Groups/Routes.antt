-- ===== src/Groups/Routes.antt =====
-- The handlers that change groups and memberships. The bodies have passed their Zod schemas;
-- ids that the database draws (`defaultRandom`) and the time are arguments.
use mdm.Base.{
  ℕ, suc, String, Bool, false, ◌&&◌, Option, none, some, List, [], ◌∷◌, ◌==◌, leb, opt_is, is_some,
  get_or, length, filter, find?, any, if◌then◌else◌, Result, ok, err,
}
use mdm.Base.Text.{Text, codes}
use mdm.Base.Table.{Table}
use mdm.DynamicGroups.Rules.{Rule}
use mdm.DynamicGroups.Membership.{
  is_dynamic, is_member, is_nil, insert_member, log, evaluate_membership,
}
use mdm.Http.{Caller, Refusal, refuse, unexpected}
use mdm.Schema.{
  Uuid, Json, number, string, Group, GroupType, Member, PolicyAssignment, AuditLog, Tables, Db,
}

abbrev pub max_group_depth : ℕ
max_group_depth = 5

-- createGroupSchema
pub record CreateGroup : Type 0 where
  pub name : Text
  pub description : Option Text
  pub type : GroupType
  pub parent_id : Option Uuid
  pub rules : Option Rule

-- A key of a body that may be absent, and whose value may be null.
pub data Given {ℓ} (A : Type ℓ) : Type ℓ where
  absent : Given A
  given : A → Given A

abbrev pub given_or {ℓ} : {A : Type ℓ} → Given A → A → A
given_or absent a = a
given_or (given b) a = b

-- updateGroupSchema
pub record UpdateGroup : Type 0 where
  pub name : Option Text
  pub description : Option Text
  pub parent_id : Given (Option Uuid)
  pub rules : Option Rule

abbrev pub or_else {ℓ} : {A : Type ℓ} → Option A → Option A → Option A
or_else none b = b
or_else (some a) b = some a

abbrev pub type_name : GroupType → String
type_name GroupType.static = "static"
type_name GroupType.dynamic = "dynamic"
type_name GroupType.ldap = "ldap"

-- JSON leaves a member out whose value is undefined.
abbrev pub parent_detail : (Uuid → Text) → Option Uuid → List (String × Json)
parent_detail uuid_text none = []
parent_detail uuid_text (some p) = ("parentId", string (uuid_text p)) ∷ []

module _ (T : Tables) where
  unfoldable pub get_group_depth : Option Uuid → Db T → ℕ
  get_group_depth none w = 0
  get_group_depth (some parent) w =
      elim (find? (λ g. g.id == parent) (Table.rows (Tables.groups T) w.groups)) [
        | none ↦ 0
        | some p ↦ suc p.depth
      ]

  -- Of an organization's group, by id.
  abbrev pub find_group : Uuid → Uuid → Db T → Option Group
  find_group id org w =
      find? (λ g. g.id == id && g.org_id == org) (Table.rows (Tables.groups T) w.groups)

  abbrev pub new_group : CreateGroup → Caller → Uuid → ℕ → ℕ → Group
  new_group body caller id depth now = record {
    id = id;
    org_id = caller.org_id;
    parent_id = body.parent_id;
    name = body.name;
    description = body.description;
    type = body.type;
    is_dynamic = is_dynamic body.type;
    dynamic_filter = body.rules;
    rules = body.rules;
    depth = depth;
    updated_at = now;
  }

  abbrev pub group_log : Caller → String → Uuid → List (String × Json) → AuditLog
  group_log caller action id details = record {
    org_id = caller.org_id;
    user_id = some caller.sub;
    action = action;
    resource = "group";
    resource_id = some id;
    details = details;
  }

  -- `{ type: body.type, parentId: body.parentId }`
  abbrev pub create_details : (Uuid → Text) → CreateGroup → List (String × Json)
  create_details uuid_text body =
      ("type", string (codes (type_name body.type))) ∷ parent_detail uuid_text body.parent_id

  unfoldable pub insert_group : (Uuid → Text) → CreateGroup → Caller → Uuid → ℕ → ℕ → Db T → Db T
  insert_group uuid_text body caller id depth now w =
      log T (group_log caller "group.created" id (create_details uuid_text body)) (record w {
        groups = Table.insert (Tables.groups T) (new_group body caller id depth now) w.groups;
      })

  -- The row behind a `PATCH`: the columns of `updateData` over the old ones.
  unfoldable pub updated_group : UpdateGroup → ℕ → ℕ → Group → Group
  updated_group body depth now g = record g {
    name = get_or body.name g.name;
    description = or_else body.description g.description;
    parent_id = given_or body.parent_id g.parent_id;
    depth = elim body.parent_id [ absent ↦ g.depth | given p ↦ depth ];
    rules = or_else body.rules g.rules;
    dynamic_filter = or_else body.rules g.dynamic_filter;
    updated_at = now;
  }

  -- Does the depth of the new parent forbid the update?
  abbrev pub too_deep : Given (Option Uuid) → Db T → Bool
  too_deep absent w = false
  too_deep (given p) w = leb max_group_depth (get_group_depth p w)

  abbrev pub new_depth : Given (Option Uuid) → Db T → ℕ
  new_depth absent w = 0
  new_depth (given p) w = get_group_depth p w

  unfoldable pub write_group : UpdateGroup → Caller → Uuid → ℕ → Db T → Db T
  unfolding updated_group
  write_group body caller id now w = record w {
    groups =
        Table.update (Tables.groups T) (λ g. g.id == id && g.org_id == caller.org_id)
          (updated_group body (new_depth body.parent_id w) now) w.groups;
  }

  -- `DELETE /:id`. Drizzle leaves out a column whose new value is `undefined`, so a child group
  -- keeps its depth unless it becomes a root.
  abbrev pub reparented : Option Uuid → Group → Group
  reparented none g = record g { parent_id = none; depth = 0 }
  reparented (some p) g = record g { parent_id = some p }

  abbrev pub group_assignments : Uuid → Db T → List PolicyAssignment
  group_assignments id w =
      filter (λ a. opt_is a.group_id id) (Table.rows (Tables.assignments T) w.assignments)

  unfoldable pub clear_assignments : Uuid → Db T → Db T
  clear_assignments id w = if is_nil (group_assignments id w) then w else record w {
    assignments = Table.delete (Tables.assignments T) (λ a. opt_is a.group_id id) w.assignments;
  }

  unfoldable pub reparent_children : Option Group → Uuid → Db T → Db T
  reparent_children none id w = w
  reparent_children (some g) id w = record w {
    groups =
        Table.update (Tables.groups T) (λ c. opt_is c.parent_id id) (reparented g.parent_id)
          w.groups;
  }

  unfoldable pub clear_members : Uuid → Db T → Db T
  clear_members id w = record w {
    members = Table.delete (Tables.members T) (λ m. m.group_id == id) w.members;
  }

  unfoldable pub drop_group : Caller → Uuid → Db T → Db T
  drop_group caller id w = record w {
    groups = Table.delete (Tables.groups T) (λ g. g.id == id && g.org_id == caller.org_id) w.groups;
  }

  unfoldable pub delete_group : Caller → Uuid → Db T → Result Refusal ℕ × Db T
  unfolding clear_assignments clear_members reparent_children drop_group
  delete_group caller id w =
      let w2 = clear_members id (clear_assignments id w) in
      let w3 = reparent_children (find_group id caller.org_id w2) id w2 in
      (
        ok (length (group_assignments id w)),
        log T (group_log caller "group.deleted" id []) (drop_group caller id w3),
      )

  -- `INSERT … ON CONFLICT DO NOTHING RETURNING` of several memberships, with the number added.
  unfoldable pub add_all :
      Uuid → List Uuid → Table.State (Tables.members T) → ℕ × Table.State (Tables.members T)
  add_all id [] s = (0, s)
  add_all id (d ∷ ds) s =
      let old = any (is_member id d) (Table.rows (Tables.members T) s) in
      let (n, s') = add_all id ds (insert_member T id d s) in ((if old then n else suc n), s')

  -- `POST /:id/devices`
  unfoldable pub bulk_add_devices : Caller → Uuid → List Uuid → Db T → Result Refusal ℕ × Db T
  unfolding add_all insert_member
  bulk_add_devices caller id device_ids w = elim (find_group id caller.org_id w) [
    | none ↦ (refuse 404 "Group not found", w)
    | some g ↦
        if is_dynamic g.type
        then (refuse 400 "Cannot manually add devices to a dynamic group", w)
        else let (added, members) = add_all id device_ids w.members in
          (
            ok added,
            log T (group_log caller "group.devices.added" id (("deviceCount", number added) ∷ []))
                (record w { members = members }),
          )
  ]

  abbrev pub remove_member : Uuid → Uuid → Db T → Db T
  remove_member id device w = record w {
    members = Table.delete (Tables.members T) (is_member id device) w.members;
  }

  -- `DELETE /:id/devices/:deviceId`
  -- `POST /groups/:id/members`, where the unique index on memberships refuses a second row.
  unfoldable pub add_member : Uuid → Uuid → Db T → Result Refusal Member × Db T
  add_member id device w =
      let m : Member = record { group_id = id; device_id = device } in
      if any (is_member id device) (Table.rows (Tables.members T) w.members)
      then (unexpected, w)
      else (ok m, record w { members = Table.insert (Tables.members T) m w.members })

  unfoldable pub remove_device : Caller → Uuid → Uuid → Db T → Result Refusal (Unit {0}) × Db T
  remove_device caller id device w = elim (find_group id caller.org_id w) [
    | none ↦ (ok tt, remove_member id device w)
    | some g ↦
        if is_dynamic g.type
        then (refuse 400 "Cannot manually remove devices from a dynamic group", w)
        else (ok tt, remove_member id device w)
  ]

  -- `POST /:id/policies`
  unfoldable pub assign_policy : (Uuid → Text) → Caller → Uuid → Uuid → Uuid → Db T → Db T
  assign_policy uuid_text caller id policy new_id w =
      log T
        (group_log caller "group.policy.assigned" id (("policyId", string (uuid_text policy)) ∷ []))
        (record w {
          assignments =
              Table.insert (Tables.assignments T)
                (record { id = new_id; policy_id = policy; device_id = none; group_id = some id })
                w.assignments;
        })

  module _ (inherited : String → Option Text) (uuid_text : Uuid → Text)
      (execute : Db T → Text → Option (List Uuid)) where
    -- `await dynamicGroupService.evaluateMembership(group.id)`, whose exceptions are not caught.
    unfoldable pub evaluate_or_fail : Group → ℕ → Db T → Result Refusal Group × Db T
    evaluate_or_fail g now w = elim (evaluate_membership T inherited uuid_text execute g.id now w) [
      | ok (added, removed, w') ↦ (ok g, w')
      | err e ↦ (unexpected, w)
    ]

    -- `POST /`
    unfoldable pub create_group :
        CreateGroup → Caller → Uuid → ℕ → Db T → Result Refusal Group × Db T
    unfolding insert_group evaluate_or_fail get_group_depth
    create_group body caller id now w =
        let depth = get_group_depth body.parent_id w in
        let g = new_group body caller id depth now in
        let w' = insert_group uuid_text body caller id depth now w in
        if leb max_group_depth depth
        then (refuse 400 "Maximum group nesting depth is 5", w)
        else if is_dynamic body.type && is_some body.rules
        then evaluate_or_fail g now w'
        else (ok g, w')

    -- `PATCH /:id`
    unfoldable pub update_group :
        UpdateGroup → Caller → Uuid → ℕ → Db T → Result Refusal Group × Db T
    unfolding write_group evaluate_or_fail get_group_depth
    update_group body caller id now w =
        if too_deep body.parent_id w
        then (refuse 400 "Maximum group nesting depth is 5", w)
        else elim (find_group id caller.org_id w) [
          | none ↦ (refuse 404 "Group not found", write_group body caller id now w)
          | some old ↦
              let g = updated_group body (new_depth body.parent_id w) now old in
              if is_dynamic g.type && is_some body.rules
              then evaluate_or_fail g now (write_group body caller id now w)
              else (ok g, write_group body caller id now w)
        ]

    -- `POST /:id/evaluate`
    unfoldable pub reevaluate_group : Caller → Uuid → ℕ → Db T → Result Refusal (ℕ × ℕ) × Db T
    reevaluate_group caller id now w = elim (find_group id caller.org_id w) [
      | none ↦ (refuse 404 "Group not found", w)
      | some g ↦
          if is_dynamic g.type
          then elim (evaluate_membership T inherited uuid_text execute id now w) [
            | ok (added, removed, w') ↦ (ok (added, removed), w')
            | err e ↦ (unexpected, w)
          ]
          else (refuse 400 "Only dynamic groups can be re-evaluated", w)
    ]
