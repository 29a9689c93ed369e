-- ===== src/Groups/Depth.antt =====
-- The depths of the groups against `MAX_GROUP_DEPTH`, through the handlers of groups.ts.
use mdm.Base.{
  ℕ, ◌≡◌, refl, String, Bool, true, false, Option, none, some, List, [], ◌∷◌, arith, ◌==◌, leb,
  find?, if_P, Bool-cases, Option-cases, inl, inr, count_p, Result, ok, err, Holds, ◌>>=◌,
}
use mdm.Base.Text.{Text}
use mdm.Base.Table.{Table, none-insert, none-update, none-delete}
use mdm.DynamicGroups.Membership.{
  add_devices, remove_devices, on_devices_added, on_devices_removed, apply_matching, to_add,
  to_remove, is_dynamic, evaluate_membership, evaluate_rules, bind_rules, with_query_error,
  with_rule_error, devices_query, EvalError,
}
use mdm.DynamicGroups.Rules.{Rule, RuleError, build_rule}
use mdm.Groups.Routes.{
  CreateGroup, UpdateGroup, Given, absent, given, max_group_depth, get_group_depth, new_group,
  insert_group, updated_group, write_group, too_deep, new_depth, reparented, delete_group,
  clear_assignments, clear_members, reparent_children, evaluate_or_fail, create_group, update_group,
  find_group,
}
use mdm.Http.{Caller, Refusal, unexpected}
use mdm.Schema.{Uuid, Group, Tables, AreLawful, Db}

-- The groups that are too deep.
abbrev pub is_deep : Group → Bool
is_deep g = leb max_group_depth g.depth

module _ (T : Tables) where
  updated_keeps :
      (parent : Given (Option Uuid)) (body : UpdateGroup) (now : ℕ) (w : Db T)
      → too_deep T parent w ≡ false
      → (g : Group)
      → is_deep (updated_group T (record body { parent_id = parent }) (new_depth T parent w) now g)
        ≡ true
      → is_deep g ≡ true
  unfolding updated_group
  updated_keeps absent body now w h g k = k
  updated_keeps (given p) body now w h g k = ground (arith)

  abbrev pub IsShallow : Db T → Type 0
  IsShallow w = count_p is_deep (Table.rows (Tables.groups T) w.groups) ≡ 0

  module _ (L : AreLawful T) where
    add_devices_groups :
        (g org : Uuid) (ids : List Uuid) (w : Db T) → (add_devices T g org ids w).groups ≡ w.groups
    unfolding add_devices on_devices_added
    add_devices_groups g org [] w = refl
    add_devices_groups g org (d ∷ ds) w = if_P (λ (v : Db T). v.groups ≡ w.groups) _ _ _ refl refl

    remove_devices_groups :
        (g org : Uuid) (ids : List Uuid) (w : Db T)
        → (remove_devices T g org ids w).groups ≡ w.groups
    unfolding remove_devices on_devices_removed
    remove_devices_groups g org [] w = refl
    remove_devices_groups g org (d ∷ ds) w = refl

    apply_matching-IsShallow :
        (g : Group) (matching : List Uuid) (now : ℕ) (w : Db T)
        → IsShallow w
        → IsShallow (apply_matching T g matching now w).2
    unfolding apply_matching
    apply_matching-IsShallow g matching now w h =
        none-update (Tables.groups T) L.groups is_deep _ _ _ (λ r k. k)
          (rw
            (
              remove_devices_groups g.id g.org_id (to_remove T g.id matching w)
                  (add_devices T g.id g.org_id (to_add T g.id matching w) w),
              add_devices_groups g.id g.org_id (to_add T g.id matching w) w,
            )
            h)

    insert-IsShallow :
        (uuid_text : Uuid → Text) (body : CreateGroup) (caller : Caller) (id depth now : ℕ)
        (w : Db T)
        → leb max_group_depth depth ≡ false
        → IsShallow w
        → IsShallow (insert_group T uuid_text body caller id depth now w)
    unfolding insert_group
    insert-IsShallow uuid_text body caller id depth now w h k =
        none-insert (Tables.groups T) L.groups is_deep (new_group T body caller id depth now)
          w.groups h k

    write-IsShallow :
        (body : UpdateGroup) (caller : Caller) (id now : ℕ) (w : Db T)
        → too_deep T body.parent_id w ≡ false
        → IsShallow w
        → IsShallow (write_group T body caller id now w)
    unfolding write_group
    write-IsShallow body caller id now w h k =
        none-update (Tables.groups T) L.groups is_deep _ _ w.groups
          (updated_keeps body.parent_id body now w h) k

    clear_assignments_groups : (id : Uuid) (w : Db T) → (clear_assignments T id w).groups ≡ w.groups
    unfolding clear_assignments
    clear_assignments_groups id w = if_P (λ (v : Db T). v.groups ≡ w.groups) _ w _ refl refl

    clear-IsShallow :
        (id : Uuid) (w : Db T)
        → IsShallow w
        → IsShallow (clear_members T id (clear_assignments T id w))
    unfolding clear_members
    clear-IsShallow id w h = rw (clear_assignments_groups id w) h

    reparented_keeps :
        (parent : Option Uuid) (g : Group)
        → is_deep (reparented T parent g) ≡ true
        → is_deep g ≡ true
    reparented_keeps none g k = ground arith
    reparented_keeps (some p) g k = k

    reparent-IsShallow :
        (o : Option Group) (id : Uuid) (w : Db T)
        → IsShallow w
        → IsShallow (reparent_children T o id w)
    unfolding reparent_children
    reparent-IsShallow none id w h = h
    reparent-IsShallow (some g) id w h =
        none-update (Tables.groups T) L.groups is_deep _ _ w.groups (reparented_keeps g.parent_id) h

    delete_group-IsShallow :
        (caller : Caller) (id : Uuid) (w : Db T)
        → IsShallow w
        → IsShallow (delete_group T caller id w).1
    unfolding delete_group
    delete_group-IsShallow caller id w h =
        let w2 = clear_members T id (clear_assignments T id w) in
        none-delete (Tables.groups T) L.groups is_deep _ _
          (reparent-IsShallow (find_group T id caller.org_id w2) id w2 (clear-IsShallow id w h))

    module _ (inherited : String → Option Text) (uuid_text : Uuid → Text)
        (execute : Db T → Text → Option (List Uuid)) where
      evaluated_query-IsShallow :
          (g : Group) (now : ℕ) (w : Db T) (found : Option (List Uuid))
          → IsShallow w
          → Holds
              (λ r. IsShallow r.2)
              (with_query_error found >>= λ matching. ok (apply_matching T g matching now w))
      evaluated_query-IsShallow g now w none h = tt
      evaluated_query-IsShallow g now w (some matching) h =
          apply_matching-IsShallow g matching now w h

      evaluated_clause-IsShallow :
          (g : Group) (now : ℕ) (w : Db T) (built : Result RuleError Text)
          → IsShallow w
          → Holds
              (λ r. IsShallow r.2)
              (with_rule_error built >>= λ clause.
                with_query_error (execute w (devices_query uuid_text g.org_id clause))
                >>= λ matching. ok (apply_matching T g matching now w))
      evaluated_clause-IsShallow g now w (err e) h = tt
      evaluated_clause-IsShallow g now w (ok clause) h = evaluated_query-IsShallow g now w _ h

      evaluated_rules-IsShallow :
          (g : Group) (now : ℕ) (w : Db T) (rules : Option Rule)
          → IsShallow w
          → Holds
              (λ r. IsShallow r.2)
              (bind_rules rules
                (ok (0, 0, w))
                (λ rules. evaluate_rules T inherited uuid_text execute g rules now w))
      unfolding evaluate_rules
      evaluated_rules-IsShallow g now w none h = h
      evaluated_rules-IsShallow g now w (some rules) h =
          evaluated_clause-IsShallow g now w (build_rule inherited rules) h

      evaluate_membership-IsShallow :
          (group : Uuid) (now : ℕ) (w : Db T)
          → IsShallow w
          → Holds
              (λ r. IsShallow r.2)
              (evaluate_membership T inherited uuid_text execute group now w)
      unfolding evaluate_membership
      evaluate_membership-IsShallow group now w h =
          elim (Option-cases
            (find? (λ (g : Group). g.id == group) (Table.rows (Tables.groups T) w.groups))) [
              | inl p ↦ rw (p, evaluate_membership) h
              | inr (g, p) ↦
                  rw (p, evaluate_membership)
                    (if_P (Holds (λ (r : ℕ × ℕ × Db T). IsShallow r.2)) (is_dynamic g.type) _ _
                      (evaluated_rules-IsShallow g now w g.rules h) h)
            ]

      evaluated_or_failed :
          (g : Group) (w : Db T) (r : Result EvalError (ℕ × ℕ × Db T))
          → IsShallow w
          → Holds (λ r. IsShallow r.2) r
          → IsShallow
              (elim r as (λ x. Result Refusal Group × Db T) [
                | ok (added, removed, v) ↦ (ok g, v)
                | err e ↦ (unexpected, w)
              ]).1
      evaluated_or_failed g w (ok (a, b, v)) h k = k
      evaluated_or_failed g w (err e) h k = h

      evaluate_or_fail-IsShallow :
          (g : Group) (now : ℕ) (w : Db T)
          → IsShallow w
          → IsShallow (evaluate_or_fail T inherited uuid_text execute g now w).1
      unfolding evaluate_or_fail
      evaluate_or_fail-IsShallow g now w h =
          evaluated_or_failed g w _ h (evaluate_membership-IsShallow g.id now w h)

      create_group-IsShallow :
          (body : CreateGroup) (caller : Caller) (id now : ℕ) (w : Db T)
          → IsShallow w
          → IsShallow (create_group T inherited uuid_text execute body caller id now w).1
      unfolding create_group
      create_group-IsShallow body caller id now w h =
          elim (Bool-cases (leb max_group_depth (get_group_depth T body.parent_id w))) [
            | inl deep ↦ rw (deep, create_group) h
            | inr fits ↦
                rw (fits, create_group)
                  (let s = insert-IsShallow uuid_text body caller id _ now w fits h in
                    if_P (λ (r : Result Refusal Group × Db T). IsShallow r.1) _ _ _
                      (evaluate_or_fail-IsShallow _ now _ s) s)
          ]

      update_group-IsShallow :
          (body : UpdateGroup) (caller : Caller) (id now : ℕ) (w : Db T)
          → IsShallow w
          → IsShallow (update_group T inherited uuid_text execute body caller id now w).1
      unfolding update_group
      update_group-IsShallow body caller id now w h =
          elim (Bool-cases (too_deep T body.parent_id w)) [
            | inl deep ↦ rw (deep, update_group) h
            | inr fits ↦
                let s = write-IsShallow body caller id now w fits h in
                elim (Option-cases (find_group T id caller.org_id w)) [
                  | inl p ↦ rw (fits, update_group) (rw p s)
                  | inr (old, p) ↦
                      rw (fits, update_group)
                        (rw p (
                          if_P (λ (r : Result Refusal Group × Db T). IsShallow r.1) _ _ _
                            (evaluate_or_fail-IsShallow _ now _ s) s))
                ]
          ]

      -- If no group's depth reaches the limit, none does after `POST /groups` or `PATCH /groups/:id`,
      -- whether the request is refused, succeeds, or fails in the evaluation that follows, and none
      -- after `DELETE /groups/:id`.
      pub groups-IsShallow :
          (body : CreateGroup) (change : UpdateGroup) (caller : Caller) (id now : ℕ) (w : Db T)
          → IsShallow w
          → IsShallow (create_group T inherited uuid_text execute body caller id now w).1
            × IsShallow (update_group T inherited uuid_text execute change caller id now w).1
            × IsShallow (delete_group T caller id w).1
      groups-IsShallow body change caller id now w h = (
        create_group-IsShallow body caller id now w h,
        update_group-IsShallow change caller id now w h,
        delete_group-IsShallow caller id w h,
      )
