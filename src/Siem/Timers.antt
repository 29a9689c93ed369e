-- ===== src/Siem/Timers.antt =====
-- A timer of the forwarder that has fired while forwarding was off.
use mdm.Base.{
  ◌≡◌, ◌≢◌, refl, sym, ◌∙◌, Bool, not, ◌||◌, Option, none, some, List, ◌++◌, arith, if_P, all,
}
use mdm.DynamicGroups.Membership.{is_nil}
use mdm.Siem.Forwarder.{
  SiemConfig, AuditEvent, waiting, spent, Forwarder, push, set_siem_config, start_flush,
  forward_event, Outcome, answered, failed, Batch, SiemType, splunk_hec, syslog, qradar, flush_with,
  settle, settle_answered, send_test_event,
}
use mdm.Siem.Runs.{Step, configure, forward, ignore, test, fire, answer, Run, done, next}

waiting-not-spent : waiting ≢ spent
waiting-not-spent e = cc

flush_with-timer :
    (c : Option SiemConfig) (s : Forwarder) → (flush_with c s).flush_timer ≡ s.flush_timer
unfolding flush_with
flush_with-timer none s = refl
flush_with-timer (some c) s =
    if_P (λ t. t.flush_timer ≡ s.flush_timer) (is_nil s.event_buffer || not c.enabled) s _ refl refl

start_flush-timer : (s : Forwarder) → (start_flush s).flush_timer ≡ s.flush_timer
unfolding start_flush
start_flush-timer s = flush_with-timer s.siem_config s

settle_answered-timer :
    (type : SiemType) (answers : List Bool) (es : List AuditEvent) (others : List Batch)
    (s : Forwarder)
    → (settle_answered type answers es others s).flush_timer ≡ s.flush_timer
settle_answered-timer splunk_hec answers es others s =
    if_P (λ (t : Forwarder). t.flush_timer ≡ s.flush_timer) (all (λ a. a) answers) _ _ refl refl
settle_answered-timer syslog answers es others s = refl
settle_answered-timer qradar answers es others s =
    if_P (λ (t : Forwarder). t.flush_timer ≡ s.flush_timer) (all (λ a. a) answers) _ _ refl refl

settle-timer :
    (o : Outcome) (b : Batch) (others : List Batch) (s : Forwarder)
    → (settle o b others s).flush_timer ≡ s.flush_timer
unfolding settle
settle-timer (failed es) b others s = refl
settle-timer (answered answers) b others s = settle_answered-timer b.type answers b.events others s

Step-keeps_spent :
    (s t : Forwarder) (es : List AuditEvent)
    → Step s es t
    → s.flush_timer ≡ spent
    → t.flush_timer ≡ spent
unfolding forward_event send_test_event set_siem_config settle
Step-keeps_spent s _ _ (configure c) h = ground (arith, h)
Step-keeps_spent s _ _ (forward e k) h = ground (arith, start_flush-timer (push e s))
Step-keeps_spent s _ _ (ignore e k) h = ground (arith, start_flush-timer (push e s))
Step-keeps_spent s _ _ (test e k) h = ground (arith, start_flush-timer (push e s))
Step-keeps_spent s _ _ (fire k) h = absurd (waiting-not-spent (sym k ∙ h))
Step-keeps_spent s _ _ (answer before after batch o e) h =
    settle-timer o batch (before ++ after) s ∙ h

-- A timer that has fired while forwarding was off stays spent, in every run: no call starts another.
pub runs_keep_spent :
    (s t : Forwarder) (es : List AuditEvent)
    → Run s es t
    → s.flush_timer ≡ spent
    → t.flush_timer ≡ spent
runs_keep_spent s _ _ done h = h
runs_keep_spent s _ _ (next {t = t} {u = u} {es = es} {fs = fs} step rest) h =
    runs_keep_spent t u fs rest (Step-keeps_spent s t es step h)
