-- ===== src/Examples/RuleCases.antt =====
-- Dynamic groups: concrete rules and evaluations.
use mdm.Base.{◌≡◌, refl, some, [], ◌∷◌, ok, arith}
use mdm.Base.Text.{Text, codes}
use mdm.DynamicGroups.Rules.{
  one, Rule, condition, build_rule, build_condition, field_column, own_column, relative_interval,
  operator_sql, escape, value_interval, in_values, split_from, trim_start, trim_end, is_space,
  digits, after_digits, quote,
}
use mdm.DynamicGroups.Membership.{apply_matching, evaluate_device}
use mdm.DynamicGroups.Literals.{Agree}
use mdm.DynamicGroups.Conditions.{InheritedIsClosed}
use mdm.DynamicGroups.Injection.{blank_rule, build_rule-Agree}
use mdm.DynamicGroups.Convergence.{has, apply_matching_twice}
use mdm.DynamicGroups.Placement.{evaluate_device_elsewhere}
use mdm.Examples.Fleet.{
  tables, tables-AreLawful, inherits_none, uuid_text, pixel_group, fleet, finds_two,
}

-- A value that tries to leave its literal.
abbrev attack : Rule
attack = condition (record { field = "model"; op = "eq"; value = one (quote ∷ codes " OR 1=1 --") })

attack_sql : build_rule inherits_none attack ≡ ok (codes "model = ''' OR 1=1 --'")
unfolding build_rule build_condition field_column own_column relative_interval value_interval
    operator_sql escape
attack_sql = refl

in_list_values : in_values (one (codes " a, b")) ≡ codes "a" ∷ codes "b" ∷ []
unfolding in_values split_from trim_start trim_end is_space
in_list_values = refl

seven_days : value_interval (one (codes "7d")) ≡ some (codes "7 days")
unfolding value_interval digits after_digits
seven_days = refl

inherits_none-InheritedIsClosed : InheritedIsClosed inherits_none
inherits_none-InheritedIsClosed field t e = ground arith

build_rule-Agree_example :
    Agree (build_rule inherits_none attack) (build_rule inherits_none (blank_rule attack))
build_rule-Agree_example = build_rule-Agree inherits_none attack inherits_none-InheritedIsClosed

apply_matching_twice_example :
    ((apply_matching tables pixel_group
        (2 ∷ 3 ∷ [])
        9
        (apply_matching tables pixel_group (2 ∷ 3 ∷ []) 8 fleet).2).0
      ≡ 0)
    × ((apply_matching tables pixel_group
          (2 ∷ 3 ∷ [])
          9
          (apply_matching tables pixel_group (2 ∷ 3 ∷ []) 8 fleet).2).1
        ≡ 0)
apply_matching_twice_example =
    apply_matching_twice tables tables-AreLawful pixel_group (2 ∷ 3 ∷ []) 8 9 fleet

abbrev pixels_sql : Text
pixels_sql = codes "model = 'Pixel'"

evaluate_device_elsewhere_example :
    has tables (evaluate_device tables inherits_none uuid_text finds_two 3 fleet).0 10 1
    ≡ has tables fleet 10 1
evaluate_device_elsewhere_example =
    evaluate_device_elsewhere tables tables-AreLawful inherits_none uuid_text finds_two 3 fleet 10 1
      (λ d found. refl)
