-- ===== src/Audit/Writing.antt =====
-- `writeAuditEntry` and `batchWriteAuditEntries`. A statement's row of values is the list of its
-- placeholders; the server puts the parameters in their places and adds the time.
use mdm.Base.{
  ℕ, zero, suc, Option, none, some, List, [], ◌∷◌, ◌++◌, ◌+◌, ◌-◌, leb, length, if◌then◌else◌,
}
use mdm.Base.Text.{Text, codes}
use mdm.Audit.Query.{AuditEntry, LogRow}

-- `AuditWriteEntry`; `detail` is the text that `JSON.stringify` gives it, and `org_id` is what the
-- event of the subscriber has under that name, if it has.
pub record AuditWriteEntry : Type 0 where
  pub org_id : Option Text
  pub actor : Text
  pub actor_type : Text
  pub action : Text
  pub resource_type : Text
  pub resource_id : Text
  pub detail : Option Text
  pub ip_address : Option Text

-- A value that is passed for a parameter, `null` among them.
pub data Value : Type 0 where
  null : Value
  string : Text → Value

-- `JSON.stringify(entry.detail ?? {})`
abbrev pub detail_text : Option Text → Text
detail_text none = codes "{}"
detail_text (some t) = t

-- `entry.ip_address ?? null`, and what the client makes of `undefined`.
abbrev pub or_null : Option Text → Value
or_null none = null
or_null (some t) = string t

-- What is pushed for an entry.
unfoldable pub values_of : AuditWriteEntry → List Value
values_of e =
    or_null e.org_id
    ∷ string e.actor
    ∷ string e.actor_type
    ∷ string e.action
    ∷ string e.resource_type
    ∷ string e.resource_id
    ∷ string (detail_text e.detail)
    ∷ or_null e.ip_address
    ∷ []

-- `VALUES (gen_random_uuid(), $…, …, NOW())`
pub record Row : Type 0 where
  pub org_id : ℕ
  pub actor : ℕ
  pub actor_type : ℕ
  pub action : ℕ
  pub resource_type : ℕ
  pub resource_id : ℕ
  pub detail : ℕ
  pub ip_address : ℕ

-- The row of placeholders from a number on.
unfoldable pub row_from : ℕ → Row
row_from idx = record {
  org_id = idx;
  actor = idx + 1;
  actor_type = idx + 2;
  action = idx + 3;
  resource_type = idx + 4;
  resource_id = idx + 5;
  detail = idx + 6;
  ip_address = idx + 7;
}

-- `values`, `params` and `idx`
pub record Batch : Type 0 where
  pub values : List Row
  pub params : List Value
  pub idx : ℕ

-- One round of the loop over the entries.
unfoldable pub add_entry : AuditWriteEntry → Batch → Batch
unfolding row_from values_of
add_entry e b = record {
  values = b.values ++ row_from b.idx ∷ [];
  params = b.params ++ values_of e;
  idx = b.idx + 8;
}

abbrev pub add_entries : List AuditWriteEntry → Batch → Batch
add_entries [] b = b
add_entries (e ∷ es) b = add_entries es (add_entry e b)

-- The parameter `$n`
abbrev pub value_at : ℕ → List Value → Option Value
value_at n [] = none
value_at zero (v ∷ vs) = some v
value_at (suc n) (v ∷ vs) = value_at n vs

-- What a column that is not null takes of a parameter, and what `ip_address` takes.
abbrev pub not_null : Option Value → Option Text
not_null none = none
not_null (some null) = none
not_null (some (string t)) = some t

abbrev pub nullable : Option Value → Option (Option Text)
nullable none = none
nullable (some null) = some none
nullable (some (string t)) = some (some t)

infixl 5 ◌>>=◌
abbrev pub ◌>>=◌ {ℓ κ} : {A : Type ℓ} {B : Type κ} → Option A → (A → Option B) → Option B
none >>= f = none
some a >>= f = f a

-- The row that the server makes of placeholders, parameters and the time.
unfoldable pub fill_row : ℕ → List Value → Row → Option LogRow
fill_row now params r = do
  org_id ← not_null (value_at (r.org_id - 1) params)
  actor ← not_null (value_at (r.actor - 1) params)
  actor_type ← not_null (value_at (r.actor_type - 1) params)
  action ← not_null (value_at (r.action - 1) params)
  resource_type ← not_null (value_at (r.resource_type - 1) params)
  resource_id ← not_null (value_at (r.resource_id - 1) params)
  detail ← not_null (value_at (r.detail - 1) params)
  ip_address ← nullable (value_at (r.ip_address - 1) params)
  let entry : AuditEntry = record {
    org_id = org_id;
    actor = actor;
    actor_type = actor_type;
    action = action;
    resource_type = resource_type;
    resource_id = resource_id;
    detail = detail;
    ip_address = ip_address;
  }
  some (record { entry = entry; created_at = now })

abbrev pub fill_rows : ℕ → List Value → List Row → Option (List LogRow)
fill_rows now params [] = some []
fill_rows now params (r ∷ rs) = do
  x ← fill_row now params r
  xs ← fill_rows now params rs
  some (x ∷ xs)

-- `INSERT INTO audit_logs … VALUES`: all rows or, on an error, none. The server takes so many
-- parameters and no more.
unfoldable pub insert_logs : ℕ → ℕ → List Value → List Row → List LogRow → Option (List LogRow)
unfolding fill_row
insert_logs max_params now params values logs =
    if leb (length params) max_params
    then (do added ← fill_rows now params values; some (logs ++ added))
    else none

unfoldable pub write_audit_entry : ℕ → ℕ → AuditWriteEntry → List LogRow → Option (List LogRow)
unfolding values_of row_from insert_logs
write_audit_entry max_params now e logs =
    insert_logs max_params now (values_of e) (row_from 1 ∷ []) logs

-- One after the other.
abbrev pub write_each : ℕ → ℕ → List AuditWriteEntry → List LogRow → Option (List LogRow)
write_each max_params now [] logs = some logs
write_each max_params now (e ∷ es) logs = do
  written ← write_audit_entry max_params now e logs
  write_each max_params now es written

abbrev pub no_batch : Batch
no_batch = record { values = []; params = []; idx = 1 }

-- The statement for a batch, with its parameters.
unfoldable pub batch_of : List AuditWriteEntry → Batch
unfolding add_entry
batch_of es = add_entries es no_batch

-- `none` where the statement is refused.
unfoldable pub batch_write_audit_entries :
    ℕ → ℕ → List AuditWriteEntry → List LogRow → Option (List LogRow)
unfolding batch_of insert_logs
batch_write_audit_entries max_params now [] logs = some logs
batch_write_audit_entries max_params now (e ∷ es) logs =
    let b = batch_of (e ∷ es) in insert_logs max_params now b.params b.values logs
