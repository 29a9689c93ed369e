-- ===== src/Audit/Subscriber.antt =====
-- services/audit-service/src/subscribers/audit-subscriber.ts: the entries of the events that
-- arrive, the buffer, and its flushes. A flush takes the whole buffer and waits for the database;
-- the loop over the messages waits for the flush that it starts, the timer's flush runs beside it.
-- Of an event's JSON the model has the members that the code reads, as texts.
use mdm.Base.{
  ℕ, Bool, true, false, Option, none, some, List, [], ◌∷◌, ◌++◌, length, get_or, leb, ◌==◌,
  if◌then◌else◌,
}
use mdm.Base.Text.{Text, codes}
use mdm.Audit.Query.{LogRow, given}
use mdm.Audit.Writing.{AuditWriteEntry, batch_write_audit_entries}
use mdm.DynamicGroups.Membership.{is_nil}

abbrev pub full_stop : ℕ
full_stop = 46

-- `text.split('.')`; the first part is never missing.
unfoldable pub split : Text → List Text
split [] = [] ∷ []
split (c ∷ cs) = let rest = split cs in if c == full_stop then [] ∷ rest else prepend c rest
  where
    prepend : ℕ → List Text → List Text
    prepend c [] = (c ∷ []) ∷ []
    prepend c (p ∷ ps) = (c ∷ p) ∷ ps

abbrev second_or_unknown : List Text → Text
second_or_unknown [] = codes "unknown"
second_or_unknown (a ∷ []) = codes "unknown"
second_or_unknown (a ∷ b ∷ rest) = b

unfoldable pub map_subject_to_resource_type : Text → Text
unfolding split
map_subject_to_resource_type subject = second_or_unknown (split subject)

-- The members of an event that the subscriber reads, and the text of the whole event.
pub record Event : Type 0 where
  pub org_id : Option Text
  pub actor : Option Text
  pub user_email : Option Text
  pub actor_type : Option Text
  pub user_id : Option Text
  pub device_id : Option Text
  pub action : Option Text
  pub resource_type : Option Text
  pub resource_id : Option Text
  pub ip_address : Option Text
  pub whole : Text

abbrev first_given : Option Text → Text → Text → Text
first_given none found other = other
first_given (some t) found other = found

unfoldable pub determine_actor_type : Event → Text
determine_actor_type event = get_or (given event.actor_type) (
    first_given (given event.user_id) (codes "user")
      (first_given (given event.device_id) (codes "device") (codes "system")))

unfoldable pub entry_of : Text → Event → AuditWriteEntry
unfolding determine_actor_type map_subject_to_resource_type
entry_of subject event = record {
  org_id = event.org_id;
  actor = get_or event.actor (get_or event.user_email (codes "system"));
  actor_type = determine_actor_type event;
  action = get_or event.action subject;
  resource_type = get_or event.resource_type (map_subject_to_resource_type subject);
  resource_id = get_or event.resource_id [];
  detail = some event.whole;
  ip_address = event.ip_address;
}

-- `buffer`, the batch that the message loop waits for, those of the timer, the rows of the
-- database, and whether the timer runs.
pub record Subscriber : Type 0 where
  pub buffer : List AuditWriteEntry
  pub awaited : Option (List AuditWriteEntry)
  pub in_flight : List (List AuditWriteEntry)
  pub logs : List LogRow
  pub armed : Bool

abbrev pub batch_size : ℕ
batch_size = 100

-- `startAuditSubscriber`: `scheduleFlush` starts the timer.
abbrev pub start : List LogRow → Subscriber
start logs = record { buffer = []; awaited = none; in_flight = []; logs = logs; armed = true }

-- `buffer.splice(0, buffer.length)` in the loop.
abbrev pub await_flush : Subscriber → Subscriber
await_flush s = record s { buffer = []; awaited = some s.buffer }

-- A message: the loop pushes its entry, and flushes a full buffer. What fails to parse is dropped.
unfoldable pub receive : Option AuditWriteEntry → Subscriber → Subscriber
receive none s = s
receive (some e) s =
    let pushed = record s { buffer = s.buffer ++ e ∷ [] } in
    if leb batch_size (length pushed.buffer) then await_flush pushed else pushed

-- The timer fires.
unfoldable pub fire : Subscriber → Subscriber
fire s =
    let fired = record s { armed = false } in
    if is_nil s.buffer
    then fired
    else record fired { buffer = []; in_flight = s.in_flight ++ s.buffer ∷ [] }

-- How the statement of a batch ends: the server answers it, or the connection fails, before the
-- server has run the statement or behind that.
pub data Ending : Type 0 where
  answered failed lost : Ending

-- A failed batch goes back to the front of the buffer.
abbrev pub put_back : List AuditWriteEntry → Subscriber → Subscriber
put_back batch s = record s { buffer = batch ++ s.buffer }

abbrev pub keep_logs : List AuditWriteEntry → Option (List LogRow) → Subscriber → Subscriber
keep_logs batch none s = put_back batch s
keep_logs batch (some logs) s = record s { logs = logs }

abbrev pub lose_answer : List AuditWriteEntry → Option (List LogRow) → Subscriber → Subscriber
lose_answer batch none s = put_back batch s
lose_answer batch (some logs) s = put_back batch (record s { logs = logs })

-- The end of `flushBuffer`.
unfoldable pub settle : ℕ → ℕ → Ending → List AuditWriteEntry → Subscriber → Subscriber
settle max_params now answered batch s =
    keep_logs batch (batch_write_audit_entries max_params now batch s.logs) s
settle max_params now failed batch s = put_back batch s
settle max_params now lost batch s =
    lose_answer batch (batch_write_audit_entries max_params now batch s.logs) s

-- Behind its flush the loop calls `scheduleFlush`.
unfoldable pub resume : ℕ → ℕ → Ending → List AuditWriteEntry → Subscriber → Subscriber
unfolding settle
resume max_params now ending batch s = record (settle max_params now ending batch s) {
  awaited = none;
  armed = true;
}
