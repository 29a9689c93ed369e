-- ===== src/Audit/Query.antt =====
-- `queryAuditLogs`. A condition is a test with the number of its
-- parameter; what PostgreSQL makes of a test, a value and a row is an argument, and so is the order
-- by time.
use mdm.Base.{
  ℕ, zero, suc, Bool, false, Option, none, some, List, [], ◌∷◌, ◌++◌, ◌+◌, ◌-◌, all, filter,
  count_p, if◌then◌else◌, find?,
}
use mdm.Base.Text.{Text, codes, text_eq}
use mdm.DynamicGroups.Membership.{is_nil}

pub record AuditEntry : Type 0 where
  pub org_id : Text
  pub actor : Text
  pub actor_type : Text
  pub action : Text
  pub resource_type : Text
  pub resource_id : Text
  pub detail : Text
  pub ip_address : Option Text

-- The row of an entry, with the time that the server gives it.
pub record LogRow : Type 0 where
  pub entry : AuditEntry
  pub created_at : ℕ

pub record AuditQueryFilters : Type 0 where
  pub org_id : Text
  pub actor_type : Option Text
  pub actor_id : Option Text
  pub action : Option Text
  pub resource_type : Option Text
  pub resource_id : Option Text
  pub from_date : Option Text
  pub to_date : Option Text
  pub search : Option Text
  pub limit : ℕ
  pub offset : ℕ

-- The tests of the conditions: `org_id = `, `actor_type = `, `actor = `, `action ILIKE `,
-- `resource_type = `, `resource_id = `, `created_at >= `, `created_at <= `, and the disjunction of
-- the search.
pub data Test : Type 0 where
  org_is actor_type_is actor_is action_like resource_type_is resource_id_is since until matches :
      Test

pub data Param : Type 0 where
  text : Text → Param
  number : ℕ → Param

pub record Condition : Type 0 where
  pub test : Test
  pub placeholder : ℕ

-- `conditions`, `params` and `idx`
pub record QueryText : Type 0 where
  pub conditions : List Condition
  pub params : List Param
  pub idx : ℕ

-- The parameter `$n`
abbrev pub at : ℕ → List Param → Option Param
at n [] = none
at zero (x ∷ xs) = some x
at (suc n) (x ∷ xs) = at n xs

abbrev pub param : ℕ → List Param → Option Param
param n xs = at (n - 1) xs

-- A filter that is given and not the empty text.
abbrev pub given : Option Text → Option Text
given none = none
given (some t) = if is_nil t then none else some t

abbrev pub push_condition : Test → (Text → Text) → Option Text → QueryText → QueryText
push_condition test wrap none q = q
push_condition test wrap (some v) q = record {
  conditions = q.conditions ++ record { test = test; placeholder = q.idx } ∷ [];
  params = q.params ++ text (wrap v) ∷ [];
  idx = q.idx + 1;
}

-- `if (value) { conditions.push(…); params.push(…) }`
unfoldable pub add_condition : Test → (Text → Text) → Option Text → QueryText → QueryText
add_condition test wrap value q = push_condition test wrap (given value) q

abbrev pub plain : Text → Text
plain t = t

-- `%…%`
abbrev pub wildcard : Text → Text
wildcard t = codes "%" ++ t ++ codes "%"

unfoldable pub build_query : AuditQueryFilters → QueryText
unfolding add_condition
build_query f = add_condition matches wildcard f.search (
    add_condition until plain f.to_date (
      add_condition since plain f.from_date (
        add_condition resource_id_is plain f.resource_id (
          add_condition resource_type_is plain f.resource_type (
            add_condition action_like wildcard f.action (
              add_condition actor_is plain f.actor_id (
                add_condition actor_type_is plain f.actor_type (record {
                  conditions = record { test = org_is; placeholder = 1 } ∷ [];
                  params = text f.org_id ∷ [];
                  idx = 2;
                }))))))))

abbrev pub number_of : Option Param → ℕ
number_of none = 0
number_of (some (text t)) = 0
number_of (some (number n)) = n

abbrev pub take_rows : ℕ → List LogRow → List LogRow
take_rows zero rows = []
take_rows (suc n) [] = []
take_rows (suc n) (r ∷ rows) = r ∷ take_rows n rows

abbrev pub drop_rows : ℕ → List LogRow → List LogRow
drop_rows zero rows = rows
drop_rows (suc n) [] = []
drop_rows (suc n) (r ∷ rows) = drop_rows n rows

module _ (holds : Test → Text → LogRow → Bool) (newest_first : List LogRow → List LogRow) where
  abbrev pub holds_param : Test → Option Param → LogRow → Bool
  holds_param test none r = false
  holds_param test (some (text t)) r = holds test t r
  holds_param test (some (number n)) r = false

  -- What the server makes of `WHERE` with the parameters.
  abbrev pub satisfies : List Param → List Condition → LogRow → Bool
  satisfies params conditions r =
      all (λ c. holds_param c.test (param c.placeholder params) r) conditions

  -- The page of logs, and the total.
  unfoldable pub query_audit_logs : AuditQueryFilters → List LogRow → List LogRow × ℕ
  unfolding build_query
  query_audit_logs f rows =
      let q = build_query f in
      let params = q.params ++ number f.limit ∷ number f.offset ∷ [] in
      (
        take_rows (number_of (param q.idx params)) (
            drop_rows (number_of (param (q.idx + 1) params))
              (newest_first (filter (satisfies params q.conditions) rows))),
        count_p (satisfies q.params q.conditions) rows,
      )

-- `getAuditLogDetail`, where `id` reads a row's identifier.
unfoldable pub get_audit_log_detail : (LogRow → Text) → Text → List LogRow → Option LogRow
get_audit_log_detail id key rows = find? (λ r. text_eq (id r) key) rows
