-- ===== src/Audit/Export.antt =====
-- `exportAuditLogs`: at most 50,000 logs as lines of quoted fields. Only the detail has its quotes
-- doubled; `iso` is `toISOString`.
use mdm.Base.{ℕ, List, [], ◌∷◌, ◌++◌, Bool, get_or, map}
use mdm.Base.Text.{Text, codes, join}
use mdm.Csv.Exporter.{double_quote, comma, doubled}
use mdm.Audit.Query.{LogRow, AuditQueryFilters, Test, query_audit_logs}

abbrev pub quoted : Text → Text
quoted t = double_quote ∷ (t ++ (double_quote ∷ []))

module _ (iso : ℕ → Text) where
  unfoldable pub log_line : LogRow → Text
  unfolding doubled
  log_line r = join (comma ∷ []) (
      quoted (iso r.created_at)
      ∷ quoted r.entry.actor
      ∷ quoted r.entry.actor_type
      ∷ quoted r.entry.action
      ∷ quoted r.entry.resource_type
      ∷ quoted r.entry.resource_id
      ∷ quoted (get_or r.entry.ip_address [])
      ∷ quoted (doubled r.entry.detail)
      ∷ [])

  abbrev pub header : Text
  header =
      codes "Timestamp,Actor,Actor Type,Action,Resource Type,Resource ID,IP Address,Detail"
      ++ (10 ∷ [])

  unfoldable pub export_audit_logs :
      (Test → Text → LogRow → Bool)
      → (List LogRow → List LogRow)
      → AuditQueryFilters
      → List LogRow
      → Text
  unfolding log_line query_audit_logs
  export_audit_logs holds newest_first f rows =
      let logs =
        (query_audit_logs holds newest_first (record f { limit = 50000; offset = 0 }) rows).0 in
      header ++ join (10 ∷ []) (map log_line logs)
