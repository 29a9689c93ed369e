-- ===== src/Audit/Delivery.antt =====
-- Runs of the audit subscriber: messages, timers and ends of statements in any order.
use mdm.Base.{
  ℕ, ◌≤◌, ◌≡◌, refl, ap, Bool, true, ◌&&◌, Option, none, some, List, [], ◌∷◌, ◌++◌, map, ◌+◌, ◌*◌,
  arith, leb, length, all, if◌then◌else◌, count_p, count_p-append, if_P, Bool-cases, inl, inr,
  Option-cases,
}
use mdm.DynamicGroups.Membership.{is_nil}
use mdm.Audit.Query.{AuditEntry, LogRow}
use mdm.Audit.Writing.{AuditWriteEntry, batch_write_audit_entries}
use mdm.Audit.Rows.{meant, log_row, has_org}
use mdm.Audit.Batches.{batch_write_audit_entries_lem}
use mdm.Audit.Subscriber.{
  Subscriber, batch_size, start, await_flush, receive, fire, Ending, answered, failed, lost, settle,
  resume,
}

module _ (max_params : ℕ) where
  -- What the database writes of a batch whose answer is lost.
  abbrev pub written_twice : ℕ → Ending → List AuditWriteEntry → List AuditWriteEntry
  written_twice now answered batch = []
  written_twice now failed batch = []
  written_twice now lost batch =
      if leb (8 * length batch) max_params && all has_org batch then batch else []

  -- A step, with the entries of the messages in it and those that the database writes although
  -- they go back into the buffer.
  pub data Step
      : Subscriber → List AuditWriteEntry → List AuditWriteEntry → Subscriber → Type 0 where
    message :
        {s : Subscriber} (e : AuditWriteEntry)
        → s.awaited ≡ none
        → Step s (e ∷ []) [] (receive (some e) s)
    garbled : {s : Subscriber} → s.awaited ≡ none → Step s [] [] (receive none s)
    timer : {s : Subscriber} → s.armed ≡ true → Step s [] [] (fire s)
    loop_end :
        {s : Subscriber} (now : ℕ) (ending : Ending) (batch : List AuditWriteEntry)
        → s.awaited ≡ some batch
        → Step s [] (written_twice now ending batch) (resume max_params now ending batch s)
    timer_end :
        {s : Subscriber} (now : ℕ) (ending : Ending) (before after : List (List AuditWriteEntry))
        (batch : List AuditWriteEntry)
        → s.in_flight ≡ before ++ batch ∷ after
        → Step s []
            (written_twice now ending batch)
            (settle max_params now ending batch (record s { in_flight = before ++ after }))

  -- Some steps, one after the other.
  pub data Run
      : Subscriber → List AuditWriteEntry → List AuditWriteEntry → Subscriber → Type 0 where
    done : {s : Subscriber} → Run s [] [] s
    next :
        {s t u : Subscriber} {es fs es' fs' : List AuditWriteEntry}
        → Step s es fs t
        → Run t es' fs' u
        → Run s (es ++ es') (fs ++ fs') u

  -- A settled batch leaves everything but the buffer and the log as it is.
  settle-awaited :
      (now : ℕ) (ending : Ending) (batch : List AuditWriteEntry) (s : Subscriber)
      → (settle max_params now ending batch s).awaited ≡ s.awaited
  unfolding settle
  settle-awaited now answered batch s =
      elim (Option-cases (batch_write_audit_entries max_params now batch s.logs)) [
        | inl e ↦ rw e refl
        | inr (l, e) ↦ rw e refl
      ]
  settle-awaited now failed batch s = refl
  settle-awaited now lost batch s =
      elim (Option-cases (batch_write_audit_entries max_params now batch s.logs)) [
        | inl e ↦ rw e refl
        | inr (l, e) ↦ rw e refl
      ]

  module _ (q : AuditEntry → Bool) where
    abbrev pub selects : AuditWriteEntry → Bool
    selects e = q (meant e)

    abbrev pub selects_row : LogRow → Bool
    selects_row r = q r.entry

    abbrev pub in_batches : List (List AuditWriteEntry) → ℕ
    in_batches [] = 0
    in_batches (b ∷ bs) = count_p selects b + in_batches bs

    abbrev pub in_awaited : Option (List AuditWriteEntry) → ℕ
    in_awaited none = 0
    in_awaited (some b) = count_p selects b

    -- Of the entries that a query selects, how many wait, are on their way or stand in the log.
    unfoldable pub held : Subscriber → ℕ
    held s =
        count_p selects s.buffer
        + (in_awaited s.awaited + (in_batches s.in_flight + count_p selects_row s.logs))

    in_batches-append :
        (xs ys : List (List AuditWriteEntry))
        → in_batches (xs ++ ys) ≡ in_batches xs + in_batches ys
    in_batches-append [] ys = omega arith
    in_batches-append (x ∷ xs) ys = omega (arith, in_batches-append xs ys)

    count-log_rows :
        (now : ℕ) (es : List AuditWriteEntry)
        → count_p selects_row (map (log_row now) es) ≡ count_p selects es
    count-log_rows now [] = refl
    count-log_rows now (e ∷ es) = omega (arith, count-log_rows now es)

    held-receive :
        (e : AuditWriteEntry) (s : Subscriber)
        → s.awaited ≡ none
        → held (receive (some e) s) ≡ count_p selects (e ∷ []) + held s
    unfolding held receive
    held-receive e s h =
        let pushed = record s { buffer = s.buffer ++ e ∷ [] } in
        let more = count_p-append selects s.buffer (e ∷ []) in
        if_P (λ t. held t ≡ count_p selects (e ∷ []) + held s)
          (leb batch_size (length pushed.buffer)) (await_flush pushed) pushed
          (rw h (omega (arith, more))) (omega (arith, more))

    held-fire : (s : Subscriber) → held (fire s) ≡ held s
    unfolding held fire
    held-fire s =
        if_P (λ t. held t ≡ held s) (is_nil s.buffer) _ _ refl
          (omega (arith, in_batches-append s.in_flight (s.buffer ∷ [])))

    -- What a batch brings back or into the log.
    held-settle :
        (now : ℕ) (ending : Ending) (batch : List AuditWriteEntry) (s : Subscriber)
        → 8 ≤ max_params
        → held (settle max_params now ending batch s)
          ≡ held s + (count_p selects batch + count_p selects (written_twice now ending batch))
    unfolding held settle
    held-settle now answered batch s h =
        let fits = leb (8 * length batch) max_params && all has_org batch in
        let written = (batch_write_audit_entries_lem max_params now batch s.logs h).0 in
        rw written (elim (Bool-cases fits) [
          | inl a ↦ rw a (
              omega (
                arith,
                count_p-append selects_row s.logs (map (log_row now) batch),
                count-log_rows now batch,
              ))
          | inr a ↦ rw a (omega (arith, count_p-append selects batch s.buffer))
        ])
    held-settle now failed batch s h = omega (arith, count_p-append selects batch s.buffer)
    held-settle now lost batch s h =
        let fits = leb (8 * length batch) max_params && all has_org batch in
        let written = (batch_write_audit_entries_lem max_params now batch s.logs h).0 in
        rw written (elim (Bool-cases fits) [
          | inl a ↦ rw a (
              omega (
                arith,
                count_p-append selects_row s.logs (map (log_row now) batch),
                count-log_rows now batch,
                count_p-append selects batch s.buffer,
              ))
          | inr a ↦ rw a (omega (arith, count_p-append selects batch s.buffer))
        ])

    held-without :
        (before after : List (List AuditWriteEntry)) (batch : List AuditWriteEntry) (s : Subscriber)
        → s.in_flight ≡ before ++ batch ∷ after
        → held s ≡ held (record s { in_flight = before ++ after }) + count_p selects batch
    unfolding held
    held-without before after batch s e = omega (
      arith,
      ap in_batches e,
      in_batches-append before (batch ∷ after),
      in_batches-append before after,
    )

    held-resume :
        (now : ℕ) (ending : Ending) (batch : List AuditWriteEntry) (s : Subscriber)
        → 8 ≤ max_params
        → s.awaited ≡ some batch
        → held (resume max_params now ending batch s)
          ≡ held s + count_p selects (written_twice now ending batch)
    unfolding held resume settle
    held-resume now ending batch s h e =
        let kept = settle-awaited now ending batch s in
        omega (arith, held-settle now ending batch s h, ap in_awaited e, ap in_awaited kept)

    Step-held :
        (s t : Subscriber) (es fs : List AuditWriteEntry)
        → 8 ≤ max_params
        → Step s es fs t
        → held t ≡ held s + (count_p selects es + count_p selects fs)
    unfolding receive
    Step-held s _ _ _ h (message e a) = omega (arith, held-receive e s a)
    Step-held s _ _ _ h (garbled a) = omega arith
    Step-held s _ _ _ h (timer a) = omega (arith, held-fire s)
    Step-held s _ _ _ h (loop_end now ending batch e) =
        omega (arith, held-resume now ending batch s h e)
    Step-held s _ _ _ h (timer_end now ending before after batch e) = omega (
      arith,
      held-settle now ending batch (record s { in_flight = before ++ after }) h,
      held-without before after batch s e,
    )

    Run-held :
        (s t : Subscriber) (es fs : List AuditWriteEntry)
        → 8 ≤ max_params
        → Run s es fs t
        → held t ≡ held s + (count_p selects es + count_p selects fs)
    Run-held s _ _ _ h done = omega arith
    Run-held s _ _ _ h (next {t = t} {u = u} {es = es} {fs = fs} {es' = es'} {fs' = fs'} st rest) =
        omega (
          arith,
          Step-held s t es fs h st,
          Run-held t u es' fs' h rest,
          count_p-append selects es es',
          count_p-append selects fs fs',
        )

    -- From the subscriber's start on, in any order of messages, timers and ends of statements, no
    -- entry of a message is lost or counted twice: whatever query is made, the entries that wait,
    -- those on their way and those that the log has more than at the start are as many as the
    -- messages had and, of the batches that the database wrote without its answer being heard, as
    -- many again. The condition is that the server takes the eight parameters of one entry.
    pub subscriber_runs_account :
        (logs : List LogRow) (t : Subscriber) (es fs : List AuditWriteEntry)
        → 8 ≤ max_params
        → Run (start logs) es fs t
        → held t ≡ count_p selects_row logs + (count_p selects es + count_p selects fs)
    unfolding held
    subscriber_runs_account logs t es fs h run = omega (arith, Run-held (start logs) t es fs h run)
