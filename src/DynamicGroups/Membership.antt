-- ===== src/DynamicGroups/Membership.antt =====
-- `DynamicGroupService`: the memberships of a group follow the devices that match its rules.
-- The server runs the query text: `execute` gives the ids that it finds, or fails; `uuid_text`
-- writes an id into a text; `now` is `new Date()`.
use mdm.Base.{
  ℕ, String, Bool, true, false, not, ◌&&◌, Option, none, some, List, [], ◌∷◌, ◌++◌, map, ◌==◌,
  opt_is, any, length, filter, find?, if◌then◌else◌, Result, ok, err, ◌>>=◌,
}
use mdm.Base.Text.{Text, codes}
use mdm.Base.Table.{Table}
use mdm.DynamicGroups.Rules.{Rule, RuleError, build_rule}
use mdm.Schema.{Uuid, number, Group, GroupType, Member, AuditLog, Tables, Db}

pub data EvalError : Type 0 where
  bad_rule : RuleError → EvalError
  query_failed : EvalError

-- `ids.includes(id)`, `set.has(id)`
unfoldable pub contains : List Uuid → Uuid → Bool
contains ids id = any (λ other. other == id) ids

-- The members of `new Set(ids)`, each once.
unfoldable pub distinct : List Uuid → List Uuid
distinct [] = []
distinct (id ∷ ids) = let rest = distinct ids in if contains rest id then rest else id ∷ rest

abbrev pub is_member : Uuid → Uuid → Member → Bool
is_member group device m = m.group_id == group && m.device_id == device

abbrev pub is_dynamic : GroupType → Bool
is_dynamic GroupType.dynamic = true
is_dynamic GroupType.static = false
is_dynamic GroupType.ldap = false

abbrev pub with_rule_error : Result RuleError Text → Result EvalError Text
with_rule_error (ok t) = ok t
with_rule_error (err e) = err (bad_rule e)

abbrev pub with_query_error {ℓ} : {A : Type ℓ} → Option A → Result EvalError A
with_query_error none = err query_failed
with_query_error (some a) = ok a

abbrev pub is_nil {ℓ} : {A : Type ℓ} → List A → Bool
is_nil [] = true
is_nil (x ∷ xs) = false

-- Of a rule that holds in the column `rules`.
abbrev pub bind_rules {ℓ} : {A : Type ℓ} → Option Rule → A → (Rule → A) → A
bind_rules none a f = a
bind_rules (some r) a f = f r

-- The query of `evaluateMembership`.
abbrev pub devices_query : (Uuid → Text) → Uuid → Text → Text
devices_query uuid_text org clause =
    codes "SELECT id FROM devices WHERE org_id = '" ++ (uuid_text org ++ (codes "' AND " ++ clause))

-- The query of `evaluateDevice`.
abbrev pub device_query : (Uuid → Text) → Uuid → Text → Text
device_query uuid_text device clause =
    codes "SELECT id FROM devices WHERE id = '" ++ (uuid_text device ++ (codes "' AND " ++ clause))

module _ (T : Tables) where
  -- `insert(deviceGroupMembers).values({ groupId, deviceId }).onConflictDoNothing()`, under the
  -- unique index on both columns.
  unfoldable pub insert_member :
      Uuid → Uuid → Table.State (Tables.members T) → Table.State (Tables.members T)
  insert_member group device s =
      if any (is_member group device) (Table.rows (Tables.members T) s)
      then s
      else Table.insert (Tables.members T) (record { group_id = group; device_id = device }) s

  unfoldable pub insert_members :
      Uuid → List Uuid → Table.State (Tables.members T) → Table.State (Tables.members T)
  insert_members group [] s = s
  insert_members group (d ∷ ds) s = insert_members group ds (insert_member group d s)

  abbrev pub log : AuditLog → Db T → Db T
  log entry w = record w { audit = Table.insert (Tables.audit T) entry w.audit }

  unfoldable pub on_devices_added : Uuid → Uuid → List Uuid → Db T → Db T
  on_devices_added group org ids w =
      let policies =
        filter (λ a. opt_is a.group_id group) (Table.rows (Tables.assignments T) w.assignments) in
      if is_nil policies
      then w
      else log
          (record {
            org_id = org;
            user_id = none;
            action = "group.membership.changed";
            resource = "group";
            resource_id = some group;
            details =
                ("added", number (length ids)) ∷ ("policyCount", number (length policies)) ∷ [];
          })
          w

  unfoldable pub on_devices_removed : Uuid → Uuid → List Uuid → Db T → Db T
  on_devices_removed group org ids w =
      log
        (record {
          org_id = org;
          user_id = none;
          action = "group.membership.changed";
          resource = "group";
          resource_id = some group;
          details = ("removed", number (length ids)) ∷ [];
        })
        w

  unfoldable pub current_members : Uuid → Db T → List Uuid
  current_members group w =
      map (λ m. m.device_id)
        (filter (λ m. m.group_id == group) (Table.rows (Tables.members T) w.members))

  -- Devices to add: in matching but not in current.
  unfoldable pub to_add : Uuid → List Uuid → Db T → List Uuid
  unfolding current_members
  to_add group matching w = filter (λ id. not (contains (current_members group w) id)) matching

  -- Devices to remove: in current but not in matching.
  unfoldable pub to_remove : Uuid → List Uuid → Db T → List Uuid
  unfolding current_members distinct
  to_remove group matching w =
      filter (λ id. not (contains matching id)) (distinct (current_members group w))

  unfoldable pub add_devices : Uuid → Uuid → List Uuid → Db T → Db T
  unfolding on_devices_added insert_members
  add_devices group org ids w =
      if is_nil ids
      then w
      else on_devices_added group org ids
          (record w { members = insert_members group ids w.members })

  unfoldable pub remove_devices : Uuid → Uuid → List Uuid → Db T → Db T
  unfolding on_devices_removed
  remove_devices group org ids w =
      if is_nil ids
      then w
      else on_devices_removed group org ids (record w {
        members =
            Table.delete (Tables.members T) (λ m. m.group_id == group && contains ids m.device_id)
              w.members;
      })

  abbrev pub touch_group : Uuid → ℕ → Db T → Db T
  touch_group group now w = record w {
    groups =
        Table.update (Tables.groups T) (λ g. g.id == group) (λ g. record g { updated_at = now })
          w.groups;
  }

  -- The part of `evaluateMembership` behind the query, with the counts that it returns.
  unfoldable pub apply_matching : Group → List Uuid → ℕ → Db T → ℕ × ℕ × Db T
  apply_matching g matching now w =
      let added = to_add g.id matching w in
      let removed = to_remove g.id matching w in
      let w1 = add_devices g.id g.org_id added w in
      let w2 = remove_devices g.id g.org_id removed w1 in
      (length added, length removed, touch_group g.id now w2)

  -- One round of the loop of `evaluateDevice`, behind its query.
  unfoldable pub place_device : Uuid → Uuid → Uuid → Bool → Db T → Db T
  place_device device org group matches w =
      let existing = any (is_member group device) (Table.rows (Tables.members T) w.members) in
      if matches && not existing
      then on_devices_added group org (device ∷ [])
          (record w { members = insert_member group device w.members })
      else if not matches && existing
      then on_devices_removed group org (device ∷ []) (record w {
        members = Table.delete (Tables.members T) (is_member group device) w.members;
      })
      else w

  module _ (inherited : String → Option Text) (uuid_text : Uuid → Text)
      (execute : Db T → Text → Option (List Uuid)) where
    unfoldable pub evaluate_rules : Group → Rule → ℕ → Db T → Result EvalError (ℕ × ℕ × Db T)
    evaluate_rules g rules now w = with_rule_error (build_rule inherited rules) >>= λ clause.
        with_query_error (execute w (devices_query uuid_text g.org_id clause)) >>= λ matching.
        ok (apply_matching g matching now w)

    unfoldable pub evaluate_membership : Uuid → ℕ → Db T → Result EvalError (ℕ × ℕ × Db T)
    unfolding evaluate_rules
    evaluate_membership group now w =
        elim (find? (λ g. g.id == group) (Table.rows (Tables.groups T) w.groups)) [
          | none ↦ ok (0, 0, w)
          | some g ↦
              if is_dynamic g.type
              then bind_rules g.rules (ok (0, 0, w)) (λ rules. evaluate_rules g rules now w)
              else ok (0, 0, w)
        ]

    unfoldable pub evaluate_device_rules :
        Uuid → Uuid → Group → Rule → Db T → Result EvalError (Db T)
    evaluate_device_rules device org g rules w =
        with_rule_error (build_rule inherited rules) >>= λ clause.
        with_query_error (execute w (device_query uuid_text device clause)) >>= λ found.
        ok (place_device device org g.id (not (is_nil found)) w)

    -- The loop over the groups; an error leaves the rounds before it in the database.
    unfoldable pub evaluate_groups : Uuid → Uuid → List Group → Db T → Db T × Option EvalError
    evaluate_groups device org [] w = (w, none)
    evaluate_groups device org (g ∷ gs) w =
        elim (bind_rules g.rules (ok w) (λ rules. evaluate_device_rules device org g rules w)) [
          | ok w' ↦ evaluate_groups device org gs w'
          | err e ↦ (w, some e)
        ]

    unfoldable pub evaluate_device : Uuid → Db T → Db T × Option EvalError
    unfolding evaluate_groups
    evaluate_device device w =
        elim (find? (λ d. d.id == device) (Table.rows (Tables.devices T) w.devices)) [
          | none ↦ (w, none)
          | some d ↦
              evaluate_groups device d.org_id
                (filter (λ g. g.org_id == d.org_id && is_dynamic g.type)
                  (Table.rows (Tables.groups T) w.groups))
                w
        ]

    -- `previewRules`: the ids and the count that the server gives.
    unfoldable pub preview_rules :
        (Db T → Text → Option ℕ) → Uuid → Rule → Db T → Result EvalError (ℕ × List Uuid)
    preview_rules execute_count org rules w =
        with_rule_error (build_rule inherited rules) >>= λ clause.
        with_query_error (execute w (devices_query uuid_text org clause ++ codes " LIMIT 100"))
        >>= λ ids.
            with_query_error (
              execute_count w (
                codes "SELECT COUNT(*)::text as total FROM devices WHERE org_id = '"
                ++ (uuid_text org ++ (codes "' AND " ++ clause))))
            >>= λ total. ok (total, ids)
