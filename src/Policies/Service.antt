-- ===== src/Policies/Service.antt =====
-- The methods of `PolicyService` that change the database. Their input has passed the schemas of
-- services/admin-api/src/routes/policies.ts. `keys` is the JSON text of `Object.keys(data)`.
use mdm.Base.{
  ℕ, String, Bool, true, false, not, ◌&&◌, Option, none, some, List, [], ◌∷◌, ◌++◌, ◌+◌, ◌==◌,
  get_or, is_some, find?, if◌then◌else◌, Result, ok,
}
use mdm.Base.Text.{Text}
use mdm.Base.Table.{Table}
use mdm.DynamicGroups.Membership.{log, is_nil}
use mdm.Groups.Routes.{or_else}
use mdm.Http.{Refusal, refuse}
use mdm.Schema.{
  Uuid, Json, null, boolean, number, string, composite, Policy, PolicyAssignment, AuditLog, Tables,
  Db,
}

-- The argument `data` of `create`.
pub record CreatePolicy : Type 0 where
  pub name : Text
  pub description : Option Text
  pub platform : String
  pub payload : Json

-- The argument `data` of `update`, with the field that only the route's schema names.
pub record UpdatePolicy : Type 0 where
  pub name : Option Text
  pub description : Option Text
  pub payload : Option Json
  pub is_active : Option Bool

-- Is a value true in a condition of JavaScript?
abbrev pub truthy : Json → Bool
truthy null = false
truthy (boolean b) = b
truthy (number n) = not (n == 0)
truthy (string t) = not (is_nil t)
truthy (composite t) = true

abbrev pub has_payload : Option Json → Bool
has_payload none = false
has_payload (some j) = truthy j

-- A JSON value for an id that may be missing.
abbrev pub id_detail : (Uuid → Text) → String → Option Uuid → List (String × Json)
id_detail uuid_text name none = []
id_detail uuid_text name (some id) = (name, string (uuid_text id)) ∷ []

module _ (T : Tables) where
  abbrev pub own_policy : Uuid → Uuid → Policy → Bool
  own_policy org id p = p.id == id && p.org_id == org

  abbrev pub find_policy : Uuid → Uuid → Db T → Option Policy
  find_policy org id w = find? (own_policy org id) (Table.rows (Tables.policies T) w.policies)

  abbrev pub policy_log : Uuid → Uuid → String → Uuid → List (String × Json) → AuditLog
  policy_log org user action id details = record {
    org_id = org;
    user_id = some user;
    action = action;
    resource = "policy";
    resource_id = some id;
    details = details;
  }

  abbrev pub snapshot : Uuid → ℕ → Json → Uuid → Db T → Db T
  snapshot id version payload user w = record w {
    versions =
        Table.insert (Tables.versions T)
          (record { policy_id = id; version = version; payload = payload; created_by = some user })
          w.versions;
  }

  abbrev pub new_policy : Uuid → CreatePolicy → Uuid → ℕ → Policy
  new_policy org body id now = record {
    id = id;
    org_id = org;
    name = body.name;
    description = body.description;
    platform = body.platform;
    version = 1;
    payload = body.payload;
    is_active = true;
    updated_at = now;
  }

  unfoldable pub create_policy : Uuid → CreatePolicy → Uuid → Uuid → ℕ → Db T → Policy × Db T
  create_policy org body user id now w =
      let p = new_policy org body id now in
      let inserted = record w { policies = Table.insert (Tables.policies T) p w.policies } in
      (
        p,
        log T (policy_log org user "policy.created" id (("name", string body.name) ∷ []))
            (snapshot id 1 body.payload user inserted),
      )

  abbrev pub updated_policy : UpdatePolicy → ℕ → ℕ → Policy → Policy
  updated_policy body new_version now p = record p {
    name = get_or body.name p.name;
    description = or_else body.description p.description;
    payload = get_or body.payload p.payload;
    is_active = get_or body.is_active p.is_active;
    version = if has_payload body.payload then new_version else p.version;
    updated_at = now;
  }

  abbrev pub next_version : UpdatePolicy → Policy → ℕ
  next_version body p = if has_payload body.payload then p.version + 1 else p.version

  -- `if (data.payload)`: the snapshot of the new version.
  abbrev pub snapshot_payload : Uuid → ℕ → Option Json → Uuid → Db T → Db T
  snapshot_payload id version none user w = w
  snapshot_payload id version (some payload) user w =
      if truthy payload then snapshot id version payload user w else w

  abbrev pub write_policy : Uuid → Uuid → UpdatePolicy → ℕ → ℕ → Db T → Db T
  write_policy org id body version now w = record w {
    policies =
        Table.update (Tables.policies T) (own_policy org id) (updated_policy body version now)
          w.policies;
  }

  unfoldable pub update_policy :
      Uuid → Uuid → UpdatePolicy → Text → Uuid → ℕ → Db T → Result Refusal Policy × Db T
  update_policy org id body keys user now w = elim (find_policy org id w) [
    | none ↦ (refuse 404 "Policy not found", w)
    | some p ↦
        let version = next_version body p in
        (
          ok (updated_policy body version now p),
          log T (policy_log org user "policy.updated" id (("changes", composite keys) ∷ [])) (
              snapshot_payload id version body.payload user
                (write_policy org id body version now w)),
        )
  ]

  -- Deleting a policy; the schema cascades to its versions and assignments.
  abbrev pub drop_policy : Uuid → Uuid → Db T → Db T
  drop_policy org id w = record w {
    policies = Table.delete (Tables.policies T) (own_policy org id) w.policies;
    versions = Table.delete (Tables.versions T) (λ v. v.policy_id == id) w.versions;
    assignments = Table.delete (Tables.assignments T) (λ a. a.policy_id == id) w.assignments;
  }

  unfoldable pub delete_policy : Uuid → Uuid → Uuid → Db T → Result Refusal (Unit {0}) × Db T
  delete_policy org id user w = elim (find_policy org id w) [
    | none ↦ (refuse 404 "Policy not found", w)
    | some p ↦ (ok tt, log T (policy_log org user "policy.deleted" id []) (drop_policy org id w))
  ]

  unfoldable pub assign :
      (Uuid → Text)
      → Uuid
      → Uuid
      → Option Uuid
      → Option Uuid
      → Uuid
      → Uuid
      → Db T
      → Result Refusal PolicyAssignment × Db T
  assign uuid_text org id device group new_id user w = elim (find_policy org id w) [
    | none ↦ (refuse 404 "Policy not found", w)
    | some p ↦
        if not (is_some device) && not (is_some group)
        then (refuse 400 "Either deviceId or groupId is required", w)
        else let a : PolicyAssignment = record {
          id = new_id;
          policy_id = id;
          device_id = device;
          group_id = group;
        } in
          (
            ok a,
            log T
                (policy_log org user "policy.assigned" id
                  (id_detail uuid_text "deviceId" device ++ id_detail uuid_text "groupId" group))
                (record w { assignments = Table.insert (Tables.assignments T) a w.assignments }),
          )
  ]
