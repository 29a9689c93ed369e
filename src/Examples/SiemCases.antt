-- ===== src/Examples/SiemCases.antt =====
-- The forwarder: an event that fails to be sent, and forwarding that is turned off for a while.
use mdm.Base.{◌≡◌, ◌≤◌, refl, Bool, ◌+◌, true, false, none, some, [], ◌∷◌, count_p}
use mdm.Base.Text.{codes, text_eq}
use mdm.Siem.Forwarder.{
  SiemConfig, splunk_hec, syslog, answered, with_answer, Batch, flush_with, AuditEvent, Forwarder,
  initial, spent, failed, set_siem_config, start_flush, forward_event, fire_timer, settle,
  send_test_event,
}
use mdm.Siem.Runs.{Run, configure, forward, fire, answer, done, next, in_batches, runs_keep_events}

abbrev on : SiemConfig
on = record {
  type = splunk_hec;
  endpoint = codes "https://siem";
  token = codes "t";
  enabled = true;
}

abbrev event : AuditEvent
event = record {
  action = codes "user.login";
  actor = codes "ops";
  actor_type = codes "user";
  resource_type = codes "user";
  resource_id = codes "30";
  detail = codes "{}";
  ip_address = none;
  created_at = codes "2024-01-01";
}

abbrev configured : Forwarder
configured = set_siem_config (some on) initial

abbrev taken : Forwarder
taken = forward_event event configured

abbrev flushed : Forwarder
flushed = fire_timer taken

abbrev sent : Batch
sent = record { type = splunk_hec; events = event ∷ [] }

abbrev returned : Forwarder
returned = settle (failed []) sent [] flushed

run : Run initial (event ∷ []) returned
unfolding set_siem_config flush_with start_flush forward_event fire_timer settle
run =
    next (configure (some on)) (
      next (forward event refl) (next (fire refl) (next (answer [] [] sent (failed []) refl) done)))

abbrev by_ops : AuditEvent → Bool
by_ops e = text_eq e.actor (codes "ops")

runs_keep_events_example :
    count_p by_ops (event ∷ [])
    ≤ count_p by_ops returned.event_buffer
      + (in_batches by_ops returned.in_flight
          + (count_p by_ops returned.accepted + count_p by_ops returned.refused))
runs_keep_events_example = runs_keep_events by_ops returned (event ∷ []) run

-- Forwarding is off when the timer fires.
abbrev switched_off : Forwarder
switched_off = fire_timer (set_siem_config none configured)

abbrev on_again : Forwarder
on_again = set_siem_config (some on) switched_off

switched_off-spent : switched_off.flush_timer ≡ spent
unfolding set_siem_config flush_with start_flush fire_timer
switched_off-spent = refl

-- A test event is reported as sent while it has only been taken over.
test_reported : (send_test_event event configured).0 ≡ some true
unfolding set_siem_config send_test_event
test_reported = refl

-- A syslog collector answers the message of an event with an error, and the event is gone.
abbrev over_syslog : Batch
over_syslog = record { type = syslog; events = event ∷ [] }

unheard : (settle (answered (false ∷ [])) over_syslog [] configured).event_buffer ≡ []
unfolding set_siem_config settle with_answer
unheard = refl
