-- ===== src/Audit/Batches.antt =====
-- A batch of audit entries against the entries one by one.
use mdm.Base.{
  ℕ, ◌≤◌, ◌*◌, ◌≡◌, refl, ap, sym, ◌∙◌, Option, none, some, List, [], ◌∷◌, ◌++◌, map, arith, leb,
  length, if◌then◌else◌, if_true, all, ◌&&◌, fun_ext, inl, inr, Bool-cases,
}
use mathlib.Core.List.{append_assoc, append-nil}
use mdm.Audit.Query.{LogRow}
use mdm.Audit.Writing.{
  AuditWriteEntry, values_of, row_from, Batch, add_entry, ◌>>=◌, fill_rows, insert_logs,
  write_audit_entry, write_each, no_batch, batch_of, batch_write_audit_entries,
}
use mdm.Audit.Rows.{log_row, has_org, rows_of, Reads, add_entry-Reads, batch_of-Reads}

Reads-filled :
    (now : ℕ) (b : Batch) (es : List AuditWriteEntry)
    → Reads now b es
    → fill_rows now b.params b.values ≡ rows_of now es
Reads-filled now b es h =
    ap (λ params. fill_rows now params b.values) (sym (append-nil b.params)) ∙ h.rows []

-- What is there with the rows of the entries behind it.
abbrev with_rows : ℕ → List AuditWriteEntry → List LogRow → Option (List LogRow)
with_rows now es logs = do added ← rows_of now es; some (logs ++ added)

insert_logs-Reads :
    (max_params now : ℕ) (b : Batch) (es : List AuditWriteEntry) (logs : List LogRow)
    → Reads now b es
    → insert_logs max_params now b.params b.values logs
      ≡ (if leb (8 * length es) max_params then with_rows now es logs else none)
unfolding insert_logs
insert_logs-Reads max_params now b es logs h = rw (Reads-filled now b es h, h.size) refl

with_rows-none :
    (max_params now : ℕ) (logs : List LogRow)
    → some logs ≡ (if leb (8 * 0) max_params then with_rows now [] logs else none)
with_rows-none max_params now logs =
    ap some (sym (append-nil logs))
    ∙ sym (if_true (leb (8 * 0) max_params) (with_rows now [] logs) none (ground arith))

with_rows-next :
    (now : ℕ) (e : AuditWriteEntry) (es : List AuditWriteEntry) (logs : List LogRow)
    → (do written ← with_rows now (e ∷ []) logs; with_rows now es written)
      ≡ with_rows now (e ∷ es) logs
with_rows-next now e es logs = elim (Bool-cases (has_org e)) [
  | inl a ↦ rw a (elim (Bool-cases (all has_org es)) [
    | inl b ↦ rw b (ap some (append_assoc logs (log_row now e ∷ []) (map (log_row now) es)))
    | inr b ↦ rw b refl
  ])
  | inr a ↦ rw a refl
]

write_audit_entry_lem :
    (max_params now : ℕ) (e : AuditWriteEntry) (logs : List LogRow)
    → 8 ≤ max_params
    → write_audit_entry max_params now e logs ≡ with_rows now (e ∷ []) logs
unfolding write_audit_entry add_entry
write_audit_entry_lem max_params now e logs h =
    insert_logs-Reads max_params now
      (record { values = row_from 1 ∷ []; params = values_of e; idx = 9 }) (e ∷ []) logs
      (add_entry-Reads now e no_batch [] (record { next = refl; size = refl; rows = λ back. refl }))
    ∙ if_true (leb (8 * 1) max_params) (with_rows now (e ∷ []) logs) none (ground arith)

write_each_lem :
    (max_params now : ℕ) (es : List AuditWriteEntry) (logs : List LogRow)
    → 8 ≤ max_params
    → write_each max_params now es logs ≡ with_rows now es logs
write_each_lem max_params now [] logs h = ap some (sym (append-nil logs))
write_each_lem max_params now (e ∷ es) logs h = rw (write_audit_entry_lem max_params now e logs h) (
    ap
      (λ (k : List LogRow → Option (List LogRow)). do
        written ← with_rows now (e ∷ []) logs
        k written)
      (fun_ext (λ written. write_each_lem max_params now es written h))
    ∙ with_rows-next now e es logs)

batch_write_audit_entries_whole :
    (max_params now : ℕ) (es : List AuditWriteEntry) (logs : List LogRow)
    → batch_write_audit_entries max_params now es logs
      ≡ (if leb (8 * length es) max_params then with_rows now es logs else none)
unfolding batch_write_audit_entries
batch_write_audit_entries_whole max_params now [] logs = with_rows-none max_params now logs
batch_write_audit_entries_whole max_params now (e ∷ es) logs =
    insert_logs-Reads max_params now (batch_of (e ∷ es)) (e ∷ es) logs (batch_of-Reads now (e ∷ es))

with_rows_whole :
    (now : ℕ) (es : List AuditWriteEntry) (logs : List LogRow)
    → with_rows now es logs ≡ (if all has_org es then some (logs ++ map (log_row now) es) else none)
with_rows_whole now es logs = elim (Bool-cases (all has_org es)) [
  | inl a ↦ rw a refl
  | inr a ↦ rw a refl
]

-- A batch writes one row for each of its entries, in their order, behind the rows there are, where
-- each of them has an organization and the server takes eight parameters for each; otherwise it
-- writes nothing, so that one entry without an organization stops the others. Every placeholder of
-- a row reads the entry of that row. The entries one by one give those rows if each has an
-- organization, however many they are. The condition is that the server takes the eight parameters
-- of one entry.
pub batch_write_audit_entries_lem :
    (max_params now : ℕ) (es : List AuditWriteEntry) (logs : List LogRow)
    → 8 ≤ max_params
    → (batch_write_audit_entries max_params now es logs ≡ (
        if leb (8 * length es) max_params && all has_org es
        then some (logs ++ map (log_row now) es)
        else none))
      × (write_each max_params now es logs
          ≡ (if all has_org es then some (logs ++ map (log_row now) es) else none))
batch_write_audit_entries_lem max_params now es logs h = (
  batch_write_audit_entries_whole max_params now es logs
      ∙ (rw (with_rows_whole now es logs) (elim (Bool-cases (leb (8 * length es) max_params)) [
        | inl a ↦ rw a refl
        | inr a ↦ rw a refl
      ])),
  write_each_lem max_params now es logs h ∙ with_rows_whole now es logs,
)
