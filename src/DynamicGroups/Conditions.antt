-- ===== src/DynamicGroups/Conditions.antt =====
-- A condition's SQL text outside literals (`buildConditionSQL`), for two values of the condition.
use mathlib.Core.List.{append_assoc}
use mathlib.Core.Option.{some-injective}
use mdm.Base.{
  ℕ, ◌≡◌, refl, ap, ◌∙◌, ◌≢◌, inl, inr, String, Bool, true, false, ◌||◌, Option, none, some, [],
  ◌∷◌, ◌++◌, arith, ◌==◌, str_eq, if◌then◌else◌, if_P, Bool-cases, Option-cases, Result, ok, err,
}
use mdm.Base.Text.{Text, codes}
use mdm.DynamicGroups.Lexer.{Mode, outside, inside, quoted, lex}
use mdm.DynamicGroups.Literals.{
  IsClosed, Agree, if_Agree, opens, literal_Agree, compare_Agree, in_Agree, blanks, outside≢inside,
}
use mdm.DynamicGroups.Rules.{
  Value, one, many, RuleCondition, RuleError, unknown_operator, unknown_field, own_column, digits,
  after_digits, interval, interval_unit, interval_of, value_interval, relative_interval,
  relative_sql, plain_value, in_values, operator_sql, field_column, build_condition,
}

lex-digits : (s rest : Text) → lex inside (digits s ++ rest) ≡ lex inside rest
unfolding lex digits
lex-digits [] rest = refl
lex-digits (c ∷ cs) rest = ground (arith, lex-digits cs rest)

abbrev Traceless : Option Text → Type 0
Traceless none = Unit
Traceless (some i) = (rest : Text) → lex inside (i ++ rest) ≡ lex inside rest

-- The value blanked: what is left is whether it is a relative time, and the length of an `IN` list.
blank_value : Option Text → Bool → Value → Value
blank_value (some i) b v = one (codes "1d")
blank_value none true v = many (blanks (in_values v))
blank_value none false v = one []

unfoldable pub blank : RuleCondition → RuleCondition
unfolding blank_value
blank c = record c { value = blank_value (relative_interval c) (str_eq c.op "in") c.value }

same_error : (e : RuleError) → Agree (err e) (err e)
unfolding Agree
same_error e = refl

-- One case of the `switch`, and the cases below it.
compare_case :
    (column rest after : Text) (v v' : Value) (b : Bool) (y y' : Result RuleError Text)
    → IsClosed column
    → (lex outside (32 ∷ rest)).0 ≡ inside
    → (lex inside after).0 ≢ inside
    → Agree y y'
    → Agree
        (if b then ok ((column ++ 32 ∷ rest) ++ (plain_value v ++ after)) else y)
        (if b then ok ((column ++ 32 ∷ rest) ++ (plain_value v' ++ after)) else y')
compare_case column rest after v v' b y y' h o c k =
    if_Agree b _ _ y y' (λ e. compare_Agree column rest v v' after h o c) (λ e. k)

quoted≢inside : quoted ≢ inside
quoted≢inside e = cc

operator_Agree :
    (column : Text) (op : String) (v v' : Value)
    → IsClosed column
    → (str_eq op "in" ≡ true → in_values v' ≡ blanks (in_values v))
    → Agree (operator_sql column op v) (operator_sql column op v')
unfolding operator_sql lex
operator_Agree column op v v' h items =
    compare_case column (codes "= '") (codes "'") v v' _ _ _ h refl quoted≢inside (
      compare_case column (codes "!= '") (codes "'") v v' _ _ _ h refl quoted≢inside (
        compare_case column (codes "> '") (codes "'") v v' _ _ _ h refl quoted≢inside (
          compare_case column (codes ">= '") (codes "'") v v' _ _ _ h refl quoted≢inside (
            compare_case column (codes "< '") (codes "'") v v' _ _ _ h refl quoted≢inside (
              compare_case column (codes "<= '") (codes "'") v v' _ _ _ h refl quoted≢inside (
                compare_case column (codes "ILIKE '%") (codes "%'") v v' _ _ _ h refl quoted≢inside
                  (compare_case column (codes "NOT ILIKE '%") (codes "%'") v v' _ _ _ h refl
                    quoted≢inside
                    (compare_case column (codes "ILIKE '") (codes "%'") v v' _ _ _ h refl
                      quoted≢inside
                      (if_Agree (str_eq op "in") _ _ _ _
                        (λ e. rw (items e) (in_Agree column (in_values v) h))
                        (λ e.
                          compare_case column (codes "~ '") (codes "'") v v' _ _ _ h refl
                            quoted≢inside (same_error (unknown_operator op))))))))))))

relative_Agree :
    (column : Text) (op : String) (i i' : Text)
    → IsClosed column
    → Traceless (some i)
    → Traceless (some i')
    → Agree (ok (relative_sql column op i)) (ok (relative_sql column op i'))
unfolding relative_sql lex
relative_Agree column op i i' h t t' = elim (Bool-cases (str_eq op "gte" || str_eq op "lte")) [
  | inl e ↦ rw e (
      literal_Agree (column ++ codes " <= NOW() - INTERVAL '") i i' (codes "'")
        (opens column (codes "<= NOW() - INTERVAL '") inside h refl) (t (codes "'"))
        (t' (codes "'")) quoted≢inside)
  | inr e ↦ rw e (
      literal_Agree (column ++ codes " > NOW() - INTERVAL '") i i' (codes "'")
        (opens column (codes "> NOW() - INTERVAL '") inside h refl) (t (codes "'")) (t' (codes "'"))
        quoted≢inside)
]

interval-Traceless :
    (num : Text) (u : ℕ) → Traceless (some num) → Traceless (interval num (interval_unit u))
unfolding lex
interval-Traceless num u h =
    let P : Option String → Type 0 = λ o. Traceless (interval num o) in
    if_P P (u == b'd') _ _
      (λ rest. rw (append_assoc num (codes " days") rest, h (codes " days" ++ rest)))
      (if_P P (u == b'h') _ _
        (λ rest. rw (append_assoc num (codes " hours") rest, h (codes " hours" ++ rest)))
        (if_P P (u == b'm') _ _
          (λ rest. rw (append_assoc num (codes " minutes") rest, h (codes " minutes" ++ rest))) tt))

interval_of-Traceless : (ds rest : Text) → Traceless (some ds) → Traceless (interval_of ds rest)
interval_of-Traceless [] rest h = tt
interval_of-Traceless (d ∷ ds) [] h = tt
interval_of-Traceless (d ∷ ds) (u ∷ []) h = interval-Traceless (d ∷ ds) u h
interval_of-Traceless (d ∷ ds) (u ∷ v ∷ rest) h = tt

value_interval-Traceless : (v : Value) → Traceless (value_interval v)
unfolding value_interval
value_interval-Traceless (one s) = interval_of-Traceless (digits s) (after_digits s) (lex-digits s)
value_interval-Traceless (many vs) = tt

relative_interval-Traceless : (c : RuleCondition) → Traceless (relative_interval c)
unfolding relative_interval
relative_interval-Traceless c =
    if_P Traceless (str_eq c.field "last_seen_at") _ none (value_interval-Traceless c.value) tt

days_Traceless : Traceless (some (codes "1 days"))
unfolding lex
days_Traceless rest = refl

-- A blanked relative time is one, and a blanked value that was none is none.
abbrev blanked : Option Text → Option Text
blanked none = none
blanked (some i) = some (codes "1 days")

blanked_interval :
    (t b : Bool) (v : Value) (o : Option Text)
    → (if t then value_interval v else none) ≡ o
    → (if t then value_interval (blank_value o b v) else none) ≡ blanked o
unfolding blank_value value_interval digits after_digits
blanked_interval true b v (some i) e = refl
blanked_interval true true v none e = refl
blanked_interval true false v none e = refl
blanked_interval false b v none e = refl
blanked_interval false b v (some i) e = cc

relative_interval-blank :
    (c : RuleCondition) → relative_interval (blank c) ≡ blanked (relative_interval c)
unfolding relative_interval blank
relative_interval-blank c =
    blanked_interval (str_eq c.field "last_seen_at") (str_eq c.op "in") c.value _ refl

ClosedName : Option String → Type 0
ClosedName none = Unit
ClosedName (some s) = IsClosed (codes s)

named : (s : String) (m : Mode) → (lex outside (codes s)).0 ≡ m → m ≢ inside → ClosedName (some s)
unfolding ClosedName
named s m e h = rw e h

no_name : ClosedName none
unfolding ClosedName
no_name = tt

named_case :
    (field key s : String) (m : Mode) (below : Option String)
    → (lex outside (codes s)).0 ≡ m
    → m ≢ inside
    → ClosedName below
    → ClosedName (if str_eq field key then some s else below)
named_case field key s m below e h k =
    if_P ClosedName (str_eq field key) (some s) below (named s m e h) k

own_column-IsClosed : (field : String) → ClosedName (own_column field)
unfolding own_column lex
own_column-IsClosed field =
    named_case field "os_version" "os_version" outside _ refl outside≢inside (
      named_case field "model" "model" outside _ refl outside≢inside (
        named_case field "manufacturer" "manufacturer" outside _ refl outside≢inside (
          named_case field "platform" "platform" outside _ refl outside≢inside (
            named_case field "os_type" "platform" outside _ refl outside≢inside (
              named_case field "status" "status" outside _ refl outside≢inside (
                named_case field "enrollment_status" "status" outside _ refl outside≢inside (
                  named_case field "compliance_status" "compliance_status" outside _ refl
                    outside≢inside
                    (named_case field "compliance_state" "compliance_status" outside _ refl
                      outside≢inside
                      (named_case field "agent_version" "device_info->>'agent_version'" quoted _
                        refl quoted≢inside
                        (named_case field "last_seen_at" "last_seen_at" outside _ refl
                          outside≢inside no_name))))))))))

module _ (inherited : String → Option Text) where
  -- What the prototype gives holds no open literal.
  abbrev pub InheritedIsClosed : Type 0
  InheritedIsClosed = (field : String) (t : Text) → inherited field ≡ some t → IsClosed t

  field_column-IsClosed :
      (field : String) (t : Text)
      → InheritedIsClosed
      → field_column inherited field ≡ some t
      → IsClosed t
  unfolding field_column ClosedName
  field_column-IsClosed field t h e = elim (Option-cases (own_column field)) [
    | inl p ↦ h field t (rw (p, field_column) at e)
    | inr (s, p) ↦
        let closed : ClosedName (some s) = rw p at (own_column-IsClosed field) in
        let same : some (codes s) ≡ some t = rw (p, field_column) at e in
        rw (← some-injective (codes s) t same) closed
  ]

  build_condition-none :
      (c : RuleCondition)
      → field_column inherited c.field ≡ none
      → build_condition inherited c ≡ err (unknown_field c.field)
  unfolding build_condition
  build_condition-none c p = rw (p, build_condition)

  build_condition_relative :
      (c : RuleCondition) (column i : Text)
      → field_column inherited c.field ≡ some column
      → relative_interval c ≡ some i
      → build_condition inherited c ≡ ok (relative_sql column c.op i)
  unfolding build_condition
  build_condition_relative c column i p q = rw (p, build_condition) (rw q refl)

  build_condition_plain :
      (c : RuleCondition) (column : Text)
      → field_column inherited c.field ≡ some column
      → relative_interval c ≡ none
      → build_condition inherited c ≡ operator_sql column c.op c.value
  unfolding build_condition
  build_condition_plain c column p q = rw (p, build_condition) (rw q refl)

  in_values-blank :
      (c : RuleCondition)
      → relative_interval c ≡ none
      → str_eq c.op "in" ≡ true
      → in_values (blank c).value ≡ blanks (in_values c.value)
  unfolding blank blank_value in_values
  in_values-blank c q e = rw (q, e)

  pub build_condition-Agree :
      (c : RuleCondition)
      → InheritedIsClosed
      → Agree (build_condition inherited c) (build_condition inherited (blank c))
  unfolding blank
  build_condition-Agree c h = elim (Option-cases (field_column inherited c.field)) [
    | inl p ↦
        rw (build_condition-none c p, build_condition-none (blank c) p)
          (same_error (unknown_field c.field))
    | inr (column, p) ↦
        let closed = field_column-IsClosed c.field column h p in
        elim (Option-cases (relative_interval c)) [
          | inl q ↦
              rw
                (
                  build_condition_plain c column p q,
                  build_condition_plain (blank c) column p
                      (relative_interval-blank c ∙ ap blanked q),
                )
                (operator_Agree column c.op c.value (blank c).value closed (in_values-blank c q))
          | inr (i, q) ↦
              rw
                (
                  build_condition_relative c column i p q,
                  build_condition_relative (blank c) column (codes "1 days") p
                      (relative_interval-blank c ∙ ap blanked q),
                )
                (relative_Agree column c.op i (codes "1 days") closed
                  (rw q at (relative_interval-Traceless c)) days_Traceless)
        ]
  ]
