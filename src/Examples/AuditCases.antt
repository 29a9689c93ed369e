-- ===== src/Examples/AuditCases.antt =====
-- The audit log: two of three rows of an organization, by an action that contains a text.
use mdm.Base.{◌≡◌, refl, Bool, true, none, some, List, [], ◌∷◌, filter, count_p}
use mdm.Base.Text.{Text, codes, text_eq}
use mdm.Audit.Query.{
  AuditEntry, LogRow, AuditQueryFilters, Test, org_is, actor_type_is, actor_is, action_like,
  resource_type_is, resource_id_is, since, until, matches, add_condition, build_query, take_rows,
  drop_rows, query_audit_logs,
}
use mdm.Audit.Placeholders.{wanted, query_audit_logs_lem}

abbrev entry : Text → Text → AuditEntry
entry org action = record {
  org_id = org;
  actor = codes "ops";
  actor_type = codes "user";
  action = action;
  resource_type = codes "policy";
  resource_id = codes "20";
  detail = codes "{}";
  ip_address = none;
}

abbrev rows : List LogRow
rows =
    record { entry = entry (codes "1") (codes "%created%"); created_at = 1 }
    ∷ record { entry = entry (codes "2") (codes "%created%"); created_at = 2 }
    ∷ record { entry = entry (codes "1") (codes "%deleted%"); created_at = 3 }
    ∷ []

-- A server that compares whole texts.
abbrev compares : Test → Text → LogRow → Bool
compares org_is t r = text_eq r.entry.org_id t
compares actor_type_is t r = text_eq r.entry.actor_type t
compares actor_is t r = text_eq r.entry.actor t
compares action_like t r = text_eq r.entry.action t
compares resource_type_is t r = text_eq r.entry.resource_type t
compares resource_id_is t r = text_eq r.entry.resource_id t
compares since t r = true
compares until t r = true
compares matches t r = text_eq r.entry.action t

abbrev as_stored : List LogRow → List LogRow
as_stored rs = rs

abbrev filters : AuditQueryFilters
filters = record {
  org_id = codes "1";
  actor_type = some [];
  actor_id = some (codes "ops");
  action = some (codes "created");
  resource_type = none;
  resource_id = none;
  from_date = none;
  to_date = none;
  search = some (codes "created");
  limit = 10;
  offset = 0;
}

one_found : (query_audit_logs compares as_stored filters rows).1 ≡ 1
unfolding query_audit_logs build_query add_condition
one_found = refl

query_audit_logs_lem_example : query_audit_logs compares as_stored filters rows ≡ (
  take_rows 10 (drop_rows 0 (filter (wanted compares as_stored filters) rows)),
  count_p (wanted compares as_stored filters) rows,
)
query_audit_logs_lem_example = query_audit_logs_lem compares as_stored filters rows
