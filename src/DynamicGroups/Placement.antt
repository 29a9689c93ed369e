-- ===== src/DynamicGroups/Placement.antt =====
-- The memberships behind `evaluateDevice`.
use mathlib.Core.Path.{ap₂}
use mathlib.Core.Bool.{and-eq-true_iff}
use mdm.Base.{
  ◌≡◌, refl, sym, ap, ◌∙◌, String, Bool, true, false, not, ◌&&◌, ◌||◌, Option, none, some, List, [],
  ◌∷◌, arith, ◌==◌, ==_iff, any, filter, find?, if◌then◌else◌, Bool-cases, Option-cases, inl, inr,
  Result, ok, err, Holds, ◌>>=◌,
}
use mdm.Base.Text.{Text}
use mdm.Base.Table.{Table, any-delete}
use mdm.DynamicGroups.Rules.{Rule, RuleError, build_rule}
use mdm.DynamicGroups.Membership.{
  is_member, is_dynamic, place_device, evaluate_device_rules, evaluate_groups, evaluate_device,
  on_devices_added, on_devices_removed, insert_member, EvalError, bind_rules, is_nil,
  with_rule_error, with_query_error, device_query,
}
use mdm.DynamicGroups.Convergence.{has, has_in, has-insert_member, on_devices_added_members}
use mdm.Schema.{Uuid, Group, Member, Device, Tables, AreLawful, Db}

any-without :
    (g d : Uuid) (ms : List Member) (h e : Uuid)
    → any (λ m. not (is_member g d m) && is_member h e m) ms
      ≡ (not (g == h && d == e) && any (is_member h e) ms)
any-without g d [] h e = ground arith
any-without g d (m ∷ ms) h e = ground (arith, any-without g d ms h e)

module _ (T : Tables) (L : AreLawful T) where
  place_added :
      (device org group : Uuid) (w : Db T) (h e : Uuid)
      → has T
          (on_devices_added T group org
            (device ∷ [])
            (record w { members = insert_member T group device w.members }))
          h
          e
        ≡ ((group == h && device == e) || has T w h e)
  place_added device org group w h e =
      ap (λ s. has_in T s h e) (on_devices_added_members T L group org (device ∷ []) _)
      ∙ has-insert_member T L group device w.members h e

  place_removed :
      (device org group : Uuid) (w : Db T) (h e : Uuid)
      → has T
          (on_devices_removed T group org (device ∷ []) (record w {
            members = Table.delete (Tables.members T) (is_member group device) w.members;
          }))
          h
          e
        ≡ (not (group == h && device == e) && has T w h e)
  unfolding on_devices_removed
  place_removed device org group w h e =
      any-delete (Tables.members T) L.members (is_member h e) _ w.members
      ∙ any-without group device _ h e

  has_same : (g d h e : Uuid) (w : Db T) → (g == h && d == e) ≡ true → has T w h e ≡ has T w g d
  has_same g d h e w same =
      let (p, q) = (and-eq-true_iff (g == h) (d == e)).0 same in
      ap₂ (λ (a b : Uuid). has T w a b) (sym ((==_iff g h).0 p)) (sym ((==_iff d e).0 q))

  -- One round of `evaluateDevice` makes the device a member of the group exactly if it matches,
  -- and leaves every other membership as it was.
  pub has-place_device :
      (device org group : Uuid) (matches : Bool) (w : Db T) (h e : Uuid)
      → has T (place_device T device org group matches w) h e
        ≡ (if group == h && device == e then matches else has T w h e)
  unfolding place_device
  has-place_device device org group true w h e = elim (Bool-cases (has T w group device)) [
    | inl old ↦
        rw (old, place_device)
          (elim (Bool-cases (group == h && device == e)) [
            | inl same ↦ rw same (has_same group device h e w same ∙ old)
            | inr other ↦ rw other
          ])
    | inr new ↦ rw (new, place_device) (place_added device org group w h e ∙ ground arith)
  ]
  has-place_device device org group false w h e = elim (Bool-cases (has T w group device)) [
    | inl old ↦ rw (old, place_device) (place_removed device org group w h e ∙ ground arith)
    | inr new ↦
        rw (new, place_device)
          (elim (Bool-cases (group == h && device == e)) [
            | inl same ↦ rw same (has_same group device h e w same ∙ new)
            | inr other ↦ rw other
          ])
  ]

  has_elsewhere :
      (device org group : Uuid) (matches : Bool) (w : Db T) (h e : Uuid)
      → (device == e && group == h) ≡ false
      → has T (place_device T device org group matches w) h e ≡ has T w h e
  has_elsewhere device org group matches w h e other =
      ground (arith, has-place_device device org group matches w h e)

  found_elsewhere :
      (device org : Uuid) (g : Group) (w : Db T) (h e : Uuid) (found : Option (List Uuid))
      → (device == e && g.id == h) ≡ false
      → Holds
          (λ v. has T v h e ≡ has T w h e)
          (with_query_error found >>= λ ids.
            ok (place_device T device org g.id (not (is_nil ids)) w))
  found_elsewhere device org g w h e none other = tt
  found_elsewhere device org g w h e (some ids) other =
      has_elsewhere device org g.id (not (is_nil ids)) w h e other

  built_elsewhere :
      (device org : Uuid) (g : Group) (w : Db T) (h e : Uuid) (built : Result RuleError Text)
      (run : Text → Option (List Uuid))
      → (device == e && g.id == h) ≡ false
      → Holds
          (λ v. has T v h e ≡ has T w h e)
          (with_rule_error built >>= λ clause. with_query_error (run clause) >>= λ ids.
            ok (place_device T device org g.id (not (is_nil ids)) w))
  built_elsewhere device org g w h e (err x) run other = tt
  built_elsewhere device org g w h e (ok clause) run other =
      found_elsewhere device org g w h e (run clause) other

  -- The loop goes on from a round that succeeded, and stops at one that failed.
  after_round :
      (h e : Uuid) (w : Db T) (rest : Db T → Db T × Option EvalError) (r : Result EvalError (Db T))
      → ((v : Db T) → has T (rest v).0 h e ≡ has T v h e)
      → Holds (λ v. has T v h e ≡ has T w h e) r
      → has T
          (elim r as (λ x. Db T × Option EvalError) [ ok v ↦ rest v | err x ↦ (w, some x) ]).0
          h
          e
        ≡ has T w h e
  after_round h e w rest (ok v) k p = k v ∙ p
  after_round h e w rest (err x) k p = refl

  module _ (inherited : String → Option Text) (uuid_text : Uuid → Text)
      (execute : Db T → Text → Option (List Uuid)) where
    round_elsewhere :
        (device org : Uuid) (g : Group) (rules : Option Rule) (w : Db T) (h e : Uuid)
        → (device == e && g.id == h) ≡ false
        → Holds
            (λ v. has T v h e ≡ has T w h e)
            (bind_rules rules
              (ok w)
              (λ r. evaluate_device_rules T inherited uuid_text execute device org g r w))
    unfolding evaluate_device_rules
    round_elsewhere device org g none w h e other = refl
    round_elsewhere device org g (some r) w h e other =
        built_elsewhere device org g w h e (build_rule inherited r)
          (λ clause. execute w (device_query uuid_text device clause)) other

    evaluate_groups_elsewhere :
        (device org : Uuid) (gs : List Group) (w : Db T) (h e : Uuid)
        → (device == e && any (λ g. g.id == h) gs) ≡ false
        → has T (evaluate_groups T inherited uuid_text execute device org gs w).0 h e ≡ has T w h e
    unfolding evaluate_groups
    evaluate_groups_elsewhere device org [] w h e other = refl
    evaluate_groups_elsewhere device org (g ∷ gs) w h e other =
        after_round h e w (evaluate_groups T inherited uuid_text execute device org gs) _
          (λ v. evaluate_groups_elsewhere device org gs v h e (ground arith))
          (round_elsewhere device org g g.rules w h e (ground arith))

    -- Whatever the rules and the queries give, and also where one fails, `evaluateDevice` changes
    -- no membership of another device, and none of a group that is not a dynamic group of the
    -- device's organization.
    pub evaluate_device_elsewhere :
        (device : Uuid) (w : Db T) (h e : Uuid)
        → ((d : Device)
            → find? (λ d. d.id == device) (Table.rows (Tables.devices T) w.devices) ≡ some d
            → (device == e
                && any
                    (λ g. g.id == h)
                    (filter
                      (λ g. g.org_id == d.org_id && is_dynamic g.type)
                      (Table.rows (Tables.groups T) w.groups)))
              ≡ false)
        → has T (evaluate_device T inherited uuid_text execute device w).0 h e ≡ has T w h e
    unfolding evaluate_device
    evaluate_device_elsewhere device w h e other =
        elim (Option-cases
          (find? (λ (d : Device). d.id == device) (Table.rows (Tables.devices T) w.devices))) [
            | inl p ↦ rw (p, evaluate_device)
            | inr (d, p) ↦
                rw (p, evaluate_device)
                  (evaluate_groups_elsewhere device d.org_id _ w h e (other d p))
          ]
