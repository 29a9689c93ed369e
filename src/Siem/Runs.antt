-- ===== src/Siem/Runs.antt =====
-- Runs of the forwarder: calls, timers and answers of the collector in any order.
use mdm.Base.{
  ℕ, ◌≤◌, ◌≡◌, refl, ap, ◌∙◌, Bool, true, false, not, ◌&&◌, ◌||◌, Option, none, some, List, [], ◌∷◌,
  ◌++◌, ◌+◌, arith, leb, length, if◌then◌else◌, count_p, count_p-append, if_P, if_false, all,
}
use mdm.DynamicGroups.Membership.{is_nil}
use mdm.Siem.Forwarder.{
  SiemConfig, AuditEvent, waiting, Forwarder, initial, is_enabled, is_disabled, is_set, push,
  batch_size, set_siem_config, start_flush, forward_event, fire_timer, Outcome, answered, failed,
  Batch, SiemType, splunk_hec, syslog, qradar, with_answer, flush_with, settle, settle_hec,
  settle_syslog, settle_answered, send_test_event,
}

-- A step, with the events that the forwarder takes over in it.
pub data Step : Forwarder → List AuditEvent → Forwarder → Type 0 where
  configure : {s : Forwarder} (config : Option SiemConfig) → Step s [] (set_siem_config config s)
  forward :
      {s : Forwarder} (e : AuditEvent) → is_disabled s ≡ false → Step s (e ∷ []) (forward_event e s)
  ignore : {s : Forwarder} (e : AuditEvent) → is_disabled s ≡ true → Step s [] (forward_event e s)
  test :
      {s : Forwarder} (e : AuditEvent)
      → is_disabled s ≡ false
      → Step s (e ∷ []) (send_test_event e s).1
  fire : {s : Forwarder} → s.flush_timer ≡ waiting → Step s [] (fire_timer s)
  answer :
      {s : Forwarder} (before after : List Batch) (batch : Batch) (o : Outcome)
      → s.in_flight ≡ before ++ batch ∷ after
      → Step s [] (settle o batch (before ++ after) s)

-- Some steps, one after the other.
pub data Run : Forwarder → List AuditEvent → Forwarder → Type 0 where
  done : {s : Forwarder} → Run s [] s
  next :
      {s t u : Forwarder} {es fs : List AuditEvent} → Step s es t → Run t fs u → Run s (es ++ fs) u

module _ (q : AuditEvent → Bool) where
  abbrev pub in_batches : List Batch → ℕ
  in_batches [] = 0
  in_batches (b ∷ bs) = count_p q b.events + in_batches bs

  -- Of the events that a query selects, how many wait, are on their way, have been accepted, or
  -- were sent in a syslog message that the collector answered with an error.
  unfoldable pub held : Forwarder → ℕ
  held s =
      count_p q s.event_buffer
      + (in_batches s.in_flight + (count_p q s.accepted + count_p q s.refused))

  in_batches-append : (xs ys : List Batch) → in_batches (xs ++ ys) ≡ in_batches xs + in_batches ys
  in_batches-append [] ys = omega arith
  in_batches-append (x ∷ xs) ys = omega (arith, in_batches-append xs ys)

  held-flush_with : (c : Option SiemConfig) (s : Forwarder) → held (flush_with c s) ≡ held s
  unfolding held flush_with
  held-flush_with none s = refl
  held-flush_with (some c) s =
      if_P (λ t. held t ≡ held s) (is_nil s.event_buffer || not c.enabled) s _ refl (omega arith)

  held-start_flush : (s : Forwarder) → held (start_flush s) ≡ held s
  unfolding start_flush
  held-start_flush s = held-flush_with s.siem_config s

  count-with_answer :
      (answers : List Bool) (events : List AuditEvent)
      → count_p q (with_answer true answers events) + count_p q (with_answer false answers events)
        ≡ count_p q events
  unfolding with_answer
  count-with_answer [] events = omega arith
  count-with_answer (a ∷ answers) [] = refl
  count-with_answer (true ∷ answers) (e ∷ events) = omega (arith, count-with_answer answers events)
  count-with_answer (false ∷ answers) (e ∷ events) = omega (arith, count-with_answer answers events)

  held-push : (e : AuditEvent) (s : Forwarder) → held (push e s) ≡ count_p q (e ∷ []) + held s
  unfolding held
  held-push e s = omega (arith, count_p-append q s.event_buffer (e ∷ []))

  held-set_siem_config :
      (c : Option SiemConfig) (s : Forwarder) → held (set_siem_config c s) ≡ held s
  unfolding held set_siem_config
  held-set_siem_config c s =
      if_P (λ t. held t ≡ held s) (is_enabled c && not (is_set s.flush_timer)) _ _ refl refl

  held-removed :
      (before after : List Batch) (batch : Batch) (s : Forwarder)
      → s.in_flight ≡ before ++ batch ∷ after
      → in_batches s.in_flight ≡ count_p q batch.events + in_batches (before ++ after)
  held-removed before after batch s e = omega (
    arith,
    ap in_batches e,
    in_batches-append before (batch ∷ after),
    in_batches-append before after,
  )

  held-requeue :
      (es : List AuditEvent) (others : List Batch) (batch : Batch) (s : Forwarder)
      → in_batches s.in_flight ≡ count_p q batch.events + in_batches others
      → held s ≤ held (settle (failed es) batch others s)
  unfolding held settle
  held-requeue es others batch s e =
      omega (arith, e, count_p-append q s.accepted es, count_p-append q batch.events s.event_buffer)

  held-settle_hec :
      (answers : List Bool) (others : List Batch) (batch : Batch) (s : Forwarder)
      → in_batches s.in_flight ≡ count_p q batch.events + in_batches others
      → held s ≤ held (settle_hec answers batch.events others s)
  unfolding held settle
  held-settle_hec answers others batch s e =
      if_P (λ t. held s ≤ held t) (all (λ a. a) answers) _ _
        (omega (arith, e, count_p-append q s.accepted batch.events))
        (held-requeue [] others batch s e)

  held-settle_syslog :
      (answers : List Bool) (others : List Batch) (batch : Batch) (s : Forwarder)
      → in_batches s.in_flight ≡ count_p q batch.events + in_batches others
      → held s ≤ held (settle_syslog answers batch.events others s)
  unfolding held
  held-settle_syslog answers others batch s e = omega (
    arith,
    e,
    count_p-append q s.accepted (with_answer true answers batch.events),
    count_p-append q s.refused (with_answer false answers batch.events),
    count-with_answer answers batch.events,
  )

  held-settle_answered :
      (type : SiemType) (answers : List Bool) (others : List Batch) (batch : Batch) (s : Forwarder)
      → in_batches s.in_flight ≡ count_p q batch.events + in_batches others
      → held s ≤ held (settle_answered type answers batch.events others s)
  held-settle_answered splunk_hec answers others batch s e =
      held-settle_hec answers others batch s e
  held-settle_answered syslog answers others batch s e = held-settle_syslog answers others batch s e
  held-settle_answered qradar answers others batch s e = held-settle_hec answers others batch s e

  held-settle :
      (o : Outcome) (others : List Batch) (batch : Batch) (s : Forwarder)
      → in_batches s.in_flight ≡ count_p q batch.events + in_batches others
      → held s ≤ held (settle o batch others s)
  unfolding settle
  held-settle (failed es) others batch s e = held-requeue es others batch s e
  held-settle (answered answers) others batch s e =
      held-settle_answered batch.type answers others batch s e

  held-forward_event :
      (e : AuditEvent) (s : Forwarder)
      → is_disabled s ≡ false
      → held (forward_event e s) ≡ count_p q (e ∷ []) + held s
  unfolding forward_event
  held-forward_event e s h =
      ap held (
        if_false (is_disabled s) s
          (if leb batch_size (length (push e s).event_buffer)
            then start_flush (push e s)
            else push e s)
          h)
      ∙ if_P (λ t. held t ≡ count_p q (e ∷ []) + held s)
          (leb batch_size (length (push e s).event_buffer)) (start_flush (push e s)) (push e s)
          (held-start_flush (push e s) ∙ held-push e s) (held-push e s)

  held-send_test_event :
      (e : AuditEvent) (s : Forwarder)
      → is_disabled s ≡ false
      → held (send_test_event e s).1 ≡ count_p q (e ∷ []) + held s
  unfolding send_test_event
  held-send_test_event e s h =
      ap (λ (a : Option Bool × Forwarder). held a.1)
        (if_false (is_disabled s) (none, s) (some true, start_flush (push e s)) h)
      ∙ (held-start_flush (push e s) ∙ held-push e s)

  held-fire_timer : (s : Forwarder) → held (fire_timer s) ≡ held s
  unfolding fire_timer held
  held-fire_timer s =
      if_P (λ t. held t ≡ held s) (is_enabled s.siem_config) _ _ (held-start_flush s)
        (held-start_flush s)

  Step-held :
      (s t : Forwarder) (es : List AuditEvent) → Step s es t → count_p q es + held s ≤ held t
  unfolding forward_event
  Step-held s _ _ (configure c) = omega (arith, held-set_siem_config c s)
  Step-held s _ _ (forward e h) = omega (arith, held-forward_event e s h)
  Step-held s _ _ (ignore e h) = ground arith
  Step-held s _ _ (test e h) = omega (arith, held-send_test_event e s h)
  Step-held s _ _ (fire h) = omega (arith, held-fire_timer s)
  Step-held s _ _ (answer before after batch o e) =
      omega (arith, held-settle o (before ++ after) batch s (held-removed before after batch s e))

  run_held : (s t : Forwarder) (es : List AuditEvent) → Run s es t → count_p q es + held s ≤ held t
  run_held s _ _ done = omega arith
  run_held s _ _ (next {t = t} {u = u} {es = es} {fs = fs} step rest) =
      omega (arith, count_p-append q es fs, Step-held s t es step, run_held t u fs rest)

  -- Of the events that the forwarder takes over in any order of calls, timers and answers from its
  -- start on, none is lost but those whose syslog message the collector answers with an error:
  -- whatever query is made, the events that wait, those on their way, those that the collector
  -- accepted and those of such syslog messages are together at least as many as were taken over.
  pub runs_keep_events :
      (t : Forwarder) (es : List AuditEvent)
      → Run initial es t
      → count_p q es
        ≤ count_p q t.event_buffer
          + (in_batches t.in_flight + (count_p q t.accepted + count_p q t.refused))
  unfolding held
  runs_keep_events t es run = omega (arith, run_held initial t es run)
