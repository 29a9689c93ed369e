-- ===== src/Audit/Idle.antt =====
-- The audit subscriber behind a timer that has fired.
use mdm.Base.{
  ℕ, ◌<◌, ◌≤◌, ◌≡◌, ◌≢◌, refl, ap, sym, ◌∙◌, true, false, none, some, List, [], ◌∷◌, ◌++◌, ◌+◌,
  arith, leb, length, length-append, if_false, Bool-cases, inl, inr, Option-cases,
}
use mathlib.Core.List.{append_assoc, append-nil}
use mathlib.Core.Path.{subst}
use mdm.DynamicGroups.Membership.{is_nil}
use mdm.Audit.Writing.{AuditWriteEntry, batch_write_audit_entries}
use mdm.Audit.Subscriber.{
  Subscriber, batch_size, await_flush, receive, fire, put_back, Ending, answered, failed, lost,
  settle,
}
use mdm.Audit.Delivery.{Step, message, garbled, timer, loop_end, timer_end, Run, done, next}

-- The number of entries in some batches
abbrev pub sizes : List (List AuditWriteEntry) → ℕ
sizes [] = 0
sizes (b ∷ bs) = length b + sizes bs

sizes-append : (xs ys : List (List AuditWriteEntry)) → sizes (xs ++ ys) ≡ sizes xs + sizes ys
sizes-append [] ys = omega arith
sizes-append (x ∷ xs) ys = omega (arith, sizes-append xs ys)

-- The loop waits for no flush and the timer does not run; the buffer ends with the given entries,
-- and before them stands what came back: with the batches on their way at most `n` entries.
pub record IsUnarmed (n : ℕ) (es : List AuditWriteEntry) (t : Subscriber) : Type 0 where
  pub awaited : t.awaited ≡ none
  pub armed : t.armed ≡ false
  pub back : List AuditWriteEntry
  pub buffer : t.buffer ≡ back ++ es
  pub room : length back + sizes t.in_flight ≤ n

none-not-some : (b : List AuditWriteEntry) → none ≢ some b
none-not-some b e = cc

true-not-false : true ≢ false
true-not-false e = cc

fire-IsUnarmed :
    (s : Subscriber)
    → s.awaited ≡ none
    → IsUnarmed (length s.buffer + sizes s.in_flight) [] (fire s)
unfolding fire
fire-IsUnarmed s a = elim (Bool-cases (is_nil s.buffer)) [
  | inl e ↦ rw e (record {
    awaited = a;
    armed = refl;
    back = s.buffer;
    buffer = sym (append-nil s.buffer);
    room = omega arith;
  })
  | inr e ↦ rw e (record {
    awaited = a;
    armed = refl;
    back = [];
    buffer = refl;
    room = omega (arith, sizes-append s.in_flight (s.buffer ∷ []));
  })
]

receive_below :
    (e : AuditWriteEntry) (s : Subscriber)
    → length s.buffer + 1 < batch_size
    → receive (some e) s ≡ record s { buffer = s.buffer ++ e ∷ [] }
unfolding receive
receive_below e s h =
    let pushed = record s { buffer = s.buffer ++ e ∷ [] } in
    if_false (leb batch_size (length pushed.buffer)) (await_flush pushed) pushed
      (ground (arith, length-append s.buffer (e ∷ [])))

put_back-IsUnarmed :
    (m n : ℕ) (es batch : List AuditWriteEntry) (s : Subscriber)
    → IsUnarmed m es s
    → m + length batch ≤ n
    → IsUnarmed n es (put_back batch s)
put_back-IsUnarmed m n es batch s i h = record {
  awaited = i.awaited;
  armed = i.armed;
  back = batch ++ i.back;
  buffer = ap (λ b. batch ++ b) i.buffer ∙ sym (append_assoc batch i.back es);
  room = omega (arith, length-append batch i.back, i.room, h);
}

settle-IsUnarmed :
    (max_params now : ℕ) (ending : Ending) (m n : ℕ) (es batch : List AuditWriteEntry)
    (s : Subscriber)
    → IsUnarmed m es s
    → m + length batch ≤ n
    → IsUnarmed n es (settle max_params now ending batch s)
unfolding settle
settle-IsUnarmed max_params now answered m n es batch s i h =
    elim (Option-cases (batch_write_audit_entries max_params now batch s.logs)) [
      | inl e ↦ rw e (put_back-IsUnarmed m n es batch s i h)
      | inr (logs, e) ↦ rw e (record {
        awaited = i.awaited;
        armed = i.armed;
        back = i.back;
        buffer = i.buffer;
        room = omega (arith, i.room, h);
      })
    ]
settle-IsUnarmed max_params now failed m n es batch s i h = put_back-IsUnarmed m n es batch s i h
settle-IsUnarmed max_params now lost m n es batch s i h =
    elim (Option-cases (batch_write_audit_entries max_params now batch s.logs)) [
      | inl e ↦ rw e (put_back-IsUnarmed m n es batch s i h)
      | inr (logs, e) ↦ rw e (
          put_back-IsUnarmed m n es batch (record s { logs = logs })
            (record {
              awaited = i.awaited;
              armed = i.armed;
              back = i.back;
              buffer = i.buffer;
              room = i.room;
            })
            h)
    ]

Step-IsUnarmed :
    (max_params n : ℕ) (s t : Subscriber) (kept es fs : List AuditWriteEntry)
    → Step max_params s es fs t
    → IsUnarmed n kept s
    → n + length (kept ++ es) < batch_size
    → IsUnarmed n (kept ++ es) t
unfolding receive
Step-IsUnarmed max_params n s _ kept _ _ (message e a) i h =
    let below : length s.buffer + 1 < batch_size = omega (
      arith,
      h,
      i.room,
      ap length i.buffer,
      length-append i.back kept,
      length-append kept (e ∷ []),
    ) in
    subst (λ t. IsUnarmed n (kept ++ e ∷ []) t) (sym (receive_below e s below))
      (record {
        awaited = i.awaited;
        armed = i.armed;
        back = i.back;
        buffer = ap (λ b. b ++ e ∷ []) i.buffer ∙ append_assoc i.back kept (e ∷ []);
        room = i.room;
      })
Step-IsUnarmed max_params n s _ kept _ _ (garbled a) i h =
    subst (λ es. IsUnarmed n es s) (sym (append-nil kept)) i
Step-IsUnarmed max_params n s _ kept _ _ (timer a) i h = absurd (true-not-false (sym a ∙ i.armed))
Step-IsUnarmed max_params n s _ kept _ _ (loop_end now ending batch e) i h =
    absurd (none-not-some batch (sym i.awaited ∙ e))
Step-IsUnarmed max_params n s _ kept _ _ (timer_end now ending before after batch e) i h =
    let ended = settle max_params now ending batch (record s { in_flight = before ++ after }) in
    let rest =
      settle-IsUnarmed max_params now ending (length i.back + sizes (before ++ after)) n kept batch
        (record s { in_flight = before ++ after })
        (record {
          awaited = i.awaited;
          armed = i.armed;
          back = i.back;
          buffer = i.buffer;
          room = omega arith;
        })
        (omega (
          arith,
          i.room,
          ap sizes e,
          sizes-append before (batch ∷ after),
          sizes-append before after,
        )) in
    subst (λ es. IsUnarmed n es ended) (sym (append-nil kept)) rest

Run-IsUnarmed :
    (max_params n : ℕ) (s t : Subscriber) (kept es fs : List AuditWriteEntry)
    → Run max_params s es fs t
    → IsUnarmed n kept s
    → n + length (kept ++ es) < batch_size
    → IsUnarmed n (kept ++ es) t
Run-IsUnarmed max_params n s _ kept _ _ done i h =
    subst (λ es. IsUnarmed n es s) (sym (append-nil kept)) i
Run-IsUnarmed max_params n s _ kept _ _
      (next {t = t} {u = u} {es = es} {fs = fs} {es' = es'} {fs' = fs'} st rest) i h =
    let together = append_assoc kept es es' in
    let all_in : n + length ((kept ++ es) ++ es') < batch_size =
      omega (arith, h, ap length together) in
    let first =
      Step-IsUnarmed max_params n s t kept es fs st i
        (omega (arith, all_in, length-append (kept ++ es) es')) in
    subst (λ es. IsUnarmed n es u) together
      (Run-IsUnarmed max_params n t u (kept ++ es) es' fs' rest first all_in)

-- The timer fires once: behind its firing, while the entries that wait, those on their way and
-- those of later messages are together fewer than a full buffer, every run leaves the timer off
-- and the loop without a flush to wait for, and the entries of the messages stay in the buffer: it
-- ends with them. What stands before them has come back from failed
-- flushes, and together with the batches that are still on their way it is at most as much as
-- waited or was on its way. The condition is that the loop was not waiting for a flush.
pub runs_after_fire :
    (max_params : ℕ) (s t : Subscriber) (es fs : List AuditWriteEntry)
    → Run max_params (fire s) es fs t
    → s.awaited ≡ none
    → length s.buffer + sizes s.in_flight + length es < batch_size
    → IsUnarmed (length s.buffer + sizes s.in_flight) es t
runs_after_fire max_params s t es fs run a h =
    Run-IsUnarmed max_params _ (fire s) t [] es fs run (fire-IsUnarmed s a) h
