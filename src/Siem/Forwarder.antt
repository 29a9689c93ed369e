-- ===== src/Siem/Forwarder.antt =====
-- The module's variables and functions. A flush is cut at its `await`: `start_flush` takes the
-- buffer, and `settle` is what happens when the answer is there; other calls may come between.
use mdm.Base.{
  ℕ, String, Bool, true, false, not, ◌&&◌, ◌||◌, Option, none, some, List, [], ◌∷◌, ◌++◌, leb,
  length, all, if◌then◌else◌,
}
use mdm.Base.Text.{Text, codes}
use mdm.DynamicGroups.Membership.{is_nil}

pub data SiemType : Type 0 where
  splunk_hec syslog qradar : SiemType

pub record SiemConfig : Type 0 where
  pub type : SiemType
  pub endpoint : Text
  pub token : Text
  pub enabled : Bool

pub record AuditEvent : Type 0 where
  pub action : Text
  pub actor : Text
  pub actor_type : Text
  pub resource_type : Text
  pub resource_id : Text
  pub detail : Text
  pub ip_address : Option Text
  pub created_at : Text

abbrev pub batch_size : ℕ
batch_size = 100

-- `flushTimer`: never set, waiting, or set to a timer that has fired.
pub data Timer : Type 0 where
  unset waiting spent : Timer

-- A batch whose answer is awaited, with the type that the configuration had when it was taken.
pub record Batch : Type 0 where
  pub type : SiemType
  pub events : List AuditEvent

-- The variables, the batches whose answer is awaited, and the events that the collector has
-- accepted and those whose message it has answered with an error that the code does not read.
pub record Forwarder : Type 0 where
  pub siem_config : Option SiemConfig
  pub event_buffer : List AuditEvent
  pub flush_timer : Timer
  pub in_flight : List Batch
  pub accepted : List AuditEvent
  pub refused : List AuditEvent

abbrev pub initial : Forwarder
initial = record {
  siem_config = none;
  event_buffer = [];
  flush_timer = unset;
  in_flight = [];
  accepted = [];
  refused = [];
}

-- `siemConfig?.enabled`
abbrev pub is_enabled : Option SiemConfig → Bool
is_enabled none = false
is_enabled (some c) = c.enabled

abbrev pub is_disabled : Forwarder → Bool
is_disabled s = not (is_enabled s.siem_config)

abbrev pub is_set : Timer → Bool
is_set unset = false
is_set waiting = true
is_set spent = true

-- `scheduleFlush`, up to the timer's firing
abbrev pub schedule_flush : Forwarder → Forwarder
schedule_flush s = record s { flush_timer = waiting }

unfoldable pub set_siem_config : Option SiemConfig → Forwarder → Forwarder
set_siem_config config s =
    let t = record s { siem_config = config } in
    if is_enabled config && not (is_set s.flush_timer) then schedule_flush t else t

-- `flushEvents` up to its `await`, with the configuration that it reads
unfoldable pub flush_with : Option SiemConfig → Forwarder → Forwarder
flush_with none s = s
flush_with (some c) s = if is_nil s.event_buffer || not c.enabled then s else record s {
  event_buffer = [];
  in_flight = record { type = c.type; events = s.event_buffer } ∷ s.in_flight;
}

unfoldable pub start_flush : Forwarder → Forwarder
unfolding flush_with
start_flush s = flush_with s.siem_config s

-- `eventBuffer.push(event)`
abbrev pub push : AuditEvent → Forwarder → Forwarder
push e s = record s { event_buffer = s.event_buffer ++ e ∷ [] }

unfoldable pub forward_event : AuditEvent → Forwarder → Forwarder
unfolding start_flush
forward_event e s =
    if is_disabled s
    then s
    else if leb batch_size (length (push e s).event_buffer)
    then start_flush (push e s)
    else push e s

-- The callback of the timer.
unfoldable pub fire_timer : Forwarder → Forwarder
unfolding start_flush
fire_timer s =
    let t = start_flush s in
    if is_enabled s.siem_config then schedule_flush t else record t { flush_timer = spent }

-- How the requests for a batch went: each was answered, where the list holds `response.ok` of the
-- answers, or there was an exception after the collector had accepted some events.
pub data Outcome : Type 0 where
  answered : List Bool → Outcome
  failed : List AuditEvent → Outcome

-- The events of a batch whose message had one kind of answer, one answer for each message. A
-- message without an answer in the list counts as accepted.
unfoldable pub with_answer : Bool → List Bool → List AuditEvent → List AuditEvent
with_answer true [] events = events
with_answer false [] events = []
with_answer b (a ∷ answers) [] = []
with_answer true (true ∷ answers) (e ∷ events) = e ∷ with_answer true answers events
with_answer true (false ∷ answers) (e ∷ events) = with_answer true answers events
with_answer false (true ∷ answers) (e ∷ events) = with_answer false answers events
with_answer false (false ∷ answers) (e ∷ events) = e ∷ with_answer false answers events

-- The `catch` of `flushEvents`: the batch goes back to the front of the buffer.
abbrev requeue : List AuditEvent → List AuditEvent → List Batch → Forwarder → Forwarder
requeue some_events batch others s = record s {
  in_flight = others;
  event_buffer = batch ++ s.event_buffer;
  accepted = s.accepted ++ some_events;
}

-- The one request of `forwardToSplunkHEC` was answered: `if (!response.ok) throw`.
abbrev pub settle_hec : List Bool → List AuditEvent → List Batch → Forwarder → Forwarder
settle_hec answers batch others s =
    if all (λ a. a) answers
    then record s { in_flight = others; accepted = s.accepted ++ batch }
    else requeue [] batch others s

-- The messages of `forwardViaSyslog` were answered: no answer is read.
abbrev pub settle_syslog : List Bool → List AuditEvent → List Batch → Forwarder → Forwarder
settle_syslog answers batch others s = record s {
  in_flight = others;
  accepted = s.accepted ++ with_answer true answers batch;
  refused = s.refused ++ with_answer false answers batch;
}

abbrev pub settle_answered :
    SiemType → List Bool → List AuditEvent → List Batch → Forwarder → Forwarder
settle_answered splunk_hec answers batch others s = settle_hec answers batch others s
settle_answered syslog answers batch others s = settle_syslog answers batch others s
settle_answered qradar answers batch others s = settle_hec answers batch others s

-- The rest of `flushEvents`.
unfoldable pub settle : Outcome → Batch → List Batch → Forwarder → Forwarder
unfolding with_answer
settle (failed some_events) b others s = requeue some_events b.events others s
settle (answered answers) b others s = settle_answered b.type answers b.events others s

-- The answer of `sendTestEvent`, none where forwarding is off; an exception of the flush is caught
-- by the flush, for whose answer the code waits first.
unfoldable pub send_test_event : AuditEvent → Forwarder → Option Bool × Forwarder
unfolding start_flush
send_test_event test s = if is_disabled s then (none, s) else (some true, start_flush (push test s))

abbrev pub quoted : String → Text → Text
quoted name value = codes " " ++ codes name ++ codes "=\"" ++ value ++ codes "\""

-- The line of an event for a syslog collector, its date in ISO format and its detail as JSON.
unfoldable pub syslog_message : (Text → Text) → AuditEvent → Text
syslog_message iso_date e =
    codes "<110>1 "
    ++ iso_date e.created_at
    ++ codes " mdm-audit-service mdm - "
    ++ e.action
    ++ codes " [mdm@0"
    ++ quoted "action" e.action
    ++ quoted "actor" e.actor
    ++ quoted "actor_type" e.actor_type
    ++ quoted "resource_type" e.resource_type
    ++ quoted "resource_id" e.resource_id
    ++ codes "] "
    ++ e.detail

-- The messages of `forwardViaSyslog`, one for each event of the batch.
unfoldable pub syslog_messages : (Text → Text) → List AuditEvent → List Text
unfolding syslog_message
syslog_messages iso_date [] = []
syslog_messages iso_date (e ∷ events) = syslog_message iso_date e ∷ syslog_messages iso_date events
