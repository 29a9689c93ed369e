-- ===== src/Webhooks/Settlement.antt =====
-- How deliveries end, against the answers of the endpoint.
use mdm.Base.{
  ℕ, zero, suc, ◌≡◌, refl, ◌∙◌, String, Bool, true, false, not, ◌&&◌, ◌||◌, Option, none, some, ◌+◌,
  ◌-◌, arith, ◌==◌, ==_iff, ltb, count_p, count_p_mono, count_p-false, if◌then◌else◌, Bool-cases,
  inl, inr,
}
use mdm.Base.Text.{Text}
use mdm.Base.Table.{Table, IsLawful}
use mdm.Schema.{Uuid}
use mdm.Webhooks.Delivery.{
  DeliveryStatus, pending, success, failed, dead_letter, Delivery, Outcome, answered, unanswered,
  unreadable, is_ok, max_retries, retry_delay, update_delivery, failed_row, success_row, dead_row,
  after_failure, attempt_delivery, run_attempts, deliver_webhook, pending_row,
}
use mdm.Webhooks.Frame.{count-run_attempts}

abbrev pub is_accepted : Outcome → Bool
is_accepted (answered code body duration) = is_ok code
is_accepted (unanswered message duration) = false
is_accepted (unreadable code message duration) = false

-- The number of the request that is accepted, among so many from an attempt on.
unfoldable pub first_accepted : ℕ → ℕ → (ℕ → Outcome) → Option ℕ
first_accepted zero attempt outcomes = none
first_accepted (suc n) attempt outcomes =
    let rest = first_accepted n (suc attempt) outcomes in
    if is_accepted (outcomes attempt) then some (attempt + 1) else rest

abbrev pub is_success : DeliveryStatus → Bool
is_success pending = false
is_success success = true
is_success failed = false
is_success dead_letter = false

abbrev pub is_dead : DeliveryStatus → Bool
is_dead pending = false
is_dead success = false
is_dead failed = false
is_dead dead_letter = true

-- How a row is to end.
abbrev pub is_settled : Option ℕ → Delivery → Bool
is_settled none r = is_dead r.status && r.attempt_count == 5
is_settled (some n) r = is_success r.status && r.attempt_count == n

-- A row of an id that did not end so.
abbrev pub is_open : Uuid → Option ℕ → Delivery → Bool
is_open id end r = r.id == id && not (is_settled end r)

module _ (T : Table Delivery) (L : IsLawful T) where
  none_open :
      (id : Uuid) (end : Option ℕ) (f : Delivery → Delivery) (s : Table.State T)
      → ((r : Delivery) → is_open id end (if r.id == id then f r else r) ≡ true → false ≡ true)
      → count_p (is_open id end) (Table.rows T (update_delivery T id f s)) ≡ 0
  none_open id end f s h =
      L.count-update (is_open id end) _ f s
      ∙ count_p_mono _ (λ r. false) (Table.rows T s) h (count_p-false (Table.rows T s))

  accepted_settles :
      (id : Uuid) (attempt code : ℕ) (body : Text) (duration now : ℕ) (s : Table.State T)
      → count_p
          (is_open id (some (attempt + 1)))
          (Table.rows T (update_delivery T id (success_row T attempt code body duration now) s))
        ≡ 0
  accepted_settles id attempt code body duration now s =
      none_open id (some (attempt + 1)) (success_row T attempt code body duration now) s
        (λ r k. ground arith)

  dead_settles :
      (id : Uuid) (code : ℕ) (body : Text) (duration now : ℕ) (s : Table.State T)
      → count_p (is_open id none) (
          Table.rows T (
            update_delivery T id
              (dead_row T now)
              (update_delivery T id (failed_row T 4 code body duration) s)))
        ≡ 0
  dead_settles id code body duration now s =
      L.count-update (is_open id none) _ (dead_row T now) _
      ∙ (L.count-update _ _ (failed_row T 4 code body duration) s
          ∙ count_p_mono _ (λ r. false) (Table.rows T s) (λ r k. ground arith)
              (count_p-false (Table.rows T s)))

  accepted_step :
      (id : Uuid) (attempt : ℕ) (o : Outcome) (now : ℕ) (s : Table.State T)
      → is_accepted o ≡ true
      → ((attempt_delivery T id attempt o now s).1 ≡ none)
        × (count_p
              (is_open id (some (attempt + 1)))
              (Table.rows T (attempt_delivery T id attempt o now s).0)
            ≡ 0)
  unfolding attempt_delivery
  accepted_step id attempt (answered code body duration) now s h =
      rw h (refl, accepted_settles id attempt code body duration now s)
  accepted_step id attempt (unanswered message duration) now s h = ground arith
  accepted_step id attempt (unreadable code message duration) now s h = ground arith

  retried_step :
      (id : Uuid) (attempt : ℕ) (o : Outcome) (now : ℕ) (s : Table.State T)
      → is_accepted o ≡ false
      → ltb attempt (max_retries - 1) ≡ true
      → (attempt_delivery T id attempt o now s).1 ≡ some (retry_delay attempt)
  unfolding attempt_delivery after_failure
  retried_step id attempt (answered code body duration) now s h k = rw (h, k)
  retried_step id attempt (unanswered message duration) now s h k = rw k
  retried_step id attempt (unreadable code message duration) now s h k = rw k

  last_step :
      (id : Uuid) (o : Outcome) (now : ℕ) (s : Table.State T)
      → is_accepted o ≡ false
      → ((attempt_delivery T id 4 o now s).1 ≡ none)
        × (count_p (is_open id none) (Table.rows T (attempt_delivery T id 4 o now s).0) ≡ 0)
  unfolding attempt_delivery after_failure
  last_step id (answered code body duration) now s h =
      rw h (refl, dead_settles id code body duration now s)
  last_step id (unanswered message duration) now s h =
      (refl, dead_settles id 0 message duration now s)
  last_step id (unreadable code message duration) now s h =
      (refl, dead_settles id code message duration now s)

  run_settles :
      (m id attempt : ℕ) (outcomes : ℕ → Outcome) (time : ℕ → ℕ) (s : Table.State T)
      → attempt + suc m ≡ 5
      → count_p
          (is_open id (first_accepted (suc m) attempt outcomes))
          (Table.rows T (run_attempts T (suc m) id attempt outcomes time s).0)
        ≡ 0
  unfolding run_attempts first_accepted
  run_settles zero id attempt outcomes time s e =
      let last : attempt ≡ 4 = omega arith in
      elim (Bool-cases (is_accepted (outcomes attempt))) [
        | inl accepted ↦
            let step = accepted_step id attempt (outcomes attempt) (time attempt) s accepted in
            rw (accepted, first_accepted) (rw (step.0, run_attempts) step.1)
        | inr refused ↦
            let step = last_step id (outcomes 4) (time 4) s (rw last at refused) in
            rw (refused, first_accepted) (rw last (rw (step.0, run_attempts) step.1))
      ]
  run_settles (suc m) id attempt outcomes time s e =
      elim (Bool-cases (is_accepted (outcomes attempt))) [
        | inl accepted ↦
            let step = accepted_step id attempt (outcomes attempt) (time attempt) s accepted in
            rw (accepted, first_accepted) (rw (step.0, run_attempts) step.1)
        | inr refused ↦
            let early : ltb attempt (max_retries - 1) ≡ true = ground arith in
            rw (refused, first_accepted)
              (rw
                (
                  retried_step id attempt (outcomes attempt) (time attempt) s refused early,
                  run_attempts,
                )
                (run_settles m id (suc attempt) outcomes time _ (ground arith)))
      ]

  -- Delivering a webhook ends: if the endpoint accepts one of the first `MAX_RETRIES` requests, the
  -- delivery is a success whose count of attempts is the number of the first accepted one, and
  -- otherwise it is a dead letter after 5 attempts. There is one delivery more than before, and
  -- every query finds as many of the deliveries with other ids as before.
  pub deliver_webhook_lem :
      (id webhook : Uuid) (event : String) (body : Text) (outcomes : ℕ → Outcome) (time : ℕ → ℕ)
      (s : Table.State T) (q : Delivery → Bool)
      → (count_p
            (is_open id (first_accepted max_retries 0 outcomes))
            (Table.rows T (deliver_webhook T id webhook event body outcomes time s).0)
          ≡ 0)
        × (count_p
              (λ r. r.id == id || q r)
              (Table.rows T (deliver_webhook T id webhook event body outcomes time s).0)
            ≡ suc (count_p (λ r. r.id == id || q r) (Table.rows T s)))
  unfolding deliver_webhook
  deliver_webhook_lem id webhook event body outcomes time s q = (
    run_settles 4 id 0 outcomes time _ refl,
    count-run_attempts T L q id max_retries 0 outcomes time _
        ∙ (L.count-insert (λ r. r.id == id || q r) (pending_row T id webhook event body) s
            ∙ ground (arith, (==_iff id id).1 refl)),
  )
