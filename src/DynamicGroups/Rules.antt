-- ===== src/DynamicGroups/Rules.antt =====
-- The SQL condition builder: `FIELD_COLUMN_MAP`, `buildConditionSQL` and `buildRuleSQL`.
-- A text is its list of UTF-16 code units. What `FIELD_COLUMN_MAP[field]` gives for a key that the map
-- does not own comes from the object's prototype, and is the parameter `inherited`.
use mdm.Base.{
  ℕ, String, Bool, ◌&&◌, ◌||◌, Option, none, some, List, [], ◌∷◌, ◌++◌, map, ◌==◌, leb, str_eq, any,
  if◌then◌else◌, Result, ok, err, ◌>>=◌,
}
use mdm.Base.Text.{Text, codes, join}

pub data Value : Type 0 where
  one : Text → Value
  many : List Text → Value

pub record RuleCondition : Type 0 where
  pub field : String
  pub op : String
  pub value : Value

pub data Operator : Type 0 where
  conjunction disjunction : Operator

-- `RuleCondition | RuleGroup`, with the group's array of conditions.
mutual
  pub data Rule : Type 0 where
    condition : RuleCondition → Rule
    group : Operator → Rules → Rule

  pub data Rules : Type 0 where
    end : Rules
    rule : Rule → Rules → Rules

pub data RuleError : Type 0 where
  unknown_field : String → RuleError
  unknown_operator : String → RuleError

-- The map's own keys.
unfoldable pub own_column : String → Option String
own_column field =
    if str_eq field "os_version"
    then some "os_version"
    else if str_eq field "model"
    then some "model"
    else if str_eq field "manufacturer"
    then some "manufacturer"
    else if str_eq field "platform"
    then some "platform"
    else if str_eq field "os_type"
    then some "platform"
    else if str_eq field "status"
    then some "status"
    else if str_eq field "enrollment_status"
    then some "status"
    else if str_eq field "compliance_status"
    then some "compliance_status"
    else if str_eq field "compliance_state"
    then some "compliance_status"
    else if str_eq field "agent_version"
    then some "device_info->>'agent_version'"
    else if str_eq field "last_seen_at"
    then some "last_seen_at"
    else none

abbrev pub quote : ℕ
quote = 39

-- `value.replace(/'/g, "''")`
unfoldable pub escape : Text → Text
escape [] = []
escape (c ∷ cs) = let rest = escape cs in if c == quote then quote ∷ quote ∷ rest else c ∷ rest

abbrev pub is_digit : ℕ → Bool
is_digit c = leb 48 c && leb c 57

-- The digits that `\d+` takes at the front of a text.
unfoldable pub digits : Text → Text
digits [] = []
digits (c ∷ cs) = let rest = digits cs in if is_digit c then c ∷ rest else []

unfoldable pub after_digits : Text → Text
after_digits [] = []
after_digits (c ∷ cs) = let rest = after_digits cs in if is_digit c then rest else c ∷ cs

-- `unit === 'd' ? 'days' : unit === 'h' ? 'hours' : 'minutes'`, for a unit of `[dhm]`.
abbrev pub interval_unit : ℕ → Option String
interval_unit u =
    if u == b'd'
    then some "days"
    else if u == b'h'
    then some "hours"
    else if u == b'm'
    then some "minutes"
    else none

abbrev pub interval : Text → Option String → Option Text
interval num none = none
interval num (some unit) = some (num ++ (codes " " ++ codes unit))

-- The match with `/^(\d+)([dhm])$/`, as the text of the interval.
abbrev pub interval_of : Text → Text → Option Text
interval_of [] rest = none
interval_of (d ∷ ds) [] = none
interval_of (d ∷ ds) (u ∷ []) = interval (d ∷ ds) (interval_unit u)
interval_of (d ∷ ds) (u ∷ v ∷ rest) = none

unfoldable pub value_interval : Value → Option Text
value_interval (one s) = interval_of (digits s) (after_digits s)
value_interval (many vs) = none

unfoldable pub relative_interval : RuleCondition → Option Text
relative_interval c = if str_eq c.field "last_seen_at" then value_interval c.value else none

-- The branch for relative times: `gt`, `lt` and all other operators give one text.
unfoldable pub relative_sql : Text → String → Text → Text
relative_sql column op i =
    if str_eq op "gte" || str_eq op "lte"
    then (column ++ codes " <= NOW() - INTERVAL '") ++ (i ++ codes "'")
    else (column ++ codes " > NOW() - INTERVAL '") ++ (i ++ codes "'")

abbrev pub plain_value : Value → Text
plain_value (one s) = escape s
plain_value (many vs) = []

-- The white space that `trim` removes.
unfoldable pub is_space : ℕ → Bool
is_space c =
    leb 9 c && leb c 13
    || leb 0x2000 c && leb c 0x200a
    || any (λ w. c == w)
        (0x20 ∷ 0xa0 ∷ 0x1680 ∷ 0x2028 ∷ 0x2029 ∷ 0x202f ∷ 0x205f ∷ 0x3000 ∷ 0xfeff ∷ [])

unfoldable pub trim_start : Text → Text
unfolding is_space
trim_start [] = []
trim_start (c ∷ cs) = let rest = trim_start cs in if is_space c then rest else c ∷ cs

abbrev pub cons_trimmed : ℕ → Text → Text
cons_trimmed c [] = if is_space c then [] else c ∷ []
cons_trimmed c (d ∷ ds) = c ∷ d ∷ ds

unfoldable pub trim_end : Text → Text
unfolding is_space
trim_end [] = []
trim_end (c ∷ cs) = cons_trimmed c (trim_end cs)

-- The parts of `value.split(',')`, with what the current part holds so far.
unfoldable pub split_from : Text → Text → List Text
split_from part [] = part ∷ []
split_from part (c ∷ cs) =
    let closed = split_from [] cs in
    let longer = split_from (part ++ (c ∷ [])) cs in if c == b',' then part ∷ closed else longer

unfoldable pub in_values : Value → List Text
unfolding split_from trim_start trim_end
in_values (one s) = map (λ v. trim_end (trim_start v)) (split_from [] s)
in_values (many vs) = vs

abbrev pub quoted_item : Text → Text
quoted_item v = codes "'" ++ (escape v ++ codes "'")

abbrev pub compare_sql : Text → String → Text → String → Text
compare_sql column before value after = (column ++ codes before) ++ (value ++ codes after)

-- The `switch` over the operator.
unfoldable pub operator_sql : Text → String → Value → Result RuleError Text
operator_sql column op value =
    let text = plain_value value in
    if str_eq op "eq"
    then ok (compare_sql column " = '" text "'")
    else if str_eq op "neq"
    then ok (compare_sql column " != '" text "'")
    else if str_eq op "gt"
    then ok (compare_sql column " > '" text "'")
    else if str_eq op "gte"
    then ok (compare_sql column " >= '" text "'")
    else if str_eq op "lt"
    then ok (compare_sql column " < '" text "'")
    else if str_eq op "lte"
    then ok (compare_sql column " <= '" text "'")
    else if str_eq op "contains"
    then ok (compare_sql column " ILIKE '%" text "%'")
    else if str_eq op "not_contains"
    then ok (compare_sql column " NOT ILIKE '%" text "%'")
    else if str_eq op "starts_with"
    then ok (compare_sql column " ILIKE '" text "%'")
    else if str_eq op "in"
    then ok (
        (column ++ codes " IN (")
        ++ (join (codes ", ") (map quoted_item (in_values value)) ++ codes ")"))
    else if str_eq op "regex"
    then ok (compare_sql column " ~ '" text "'")
    else err (unknown_operator op)

abbrev pub joiner : Operator → Text
joiner conjunction = codes " AND "
joiner disjunction = codes " OR "

module _ (inherited : String → Option Text) where
  unfoldable pub field_column : String → Option Text
  unfolding own_column
  field_column field = elim (own_column field) [
    | some column ↦ some (codes column)
    | none ↦ inherited field
  ]

  unfoldable pub build_condition : RuleCondition → Result RuleError Text
  build_condition c = elim (field_column c.field) [
    | none ↦ err (unknown_field c.field)
    | some column ↦ elim (relative_interval c) [
      | some i ↦ ok (relative_sql column c.op i)
      | none ↦ operator_sql column c.op c.value
    ]
  ]

  unfoldable mutual
    pub build_rule : Rule → Result RuleError Text
    build_rule (condition c) = build_condition c
    build_rule (group o rs) =
        build_rules rs >>= λ parts. ok (codes "(" ++ (join (joiner o) parts ++ codes ")"))

    -- `rule.conditions.map(c => buildRuleSQL(c))`, which the first error ends.
    pub build_rules : Rules → Result RuleError (List Text)
    build_rules end = ok []
    build_rules (rule r rs) = build_rule r >>= λ part. build_rules rs >>= λ parts. ok (part ∷ parts)
