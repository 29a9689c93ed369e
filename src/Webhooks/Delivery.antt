-- ===== src/Webhooks/Delivery.antt =====
-- The deliveries. What an endpoint does with a request is an argument: an answer, no answer, or an
-- answer whose body cannot be read. A retry that `setTimeout` starts is the next step of the run;
-- the process lives as long as the run does, and the queries of the run succeed.
use mdm.Base.{
  ℕ, zero, suc, String, Bool, ◌&&◌, Option, none, some, List, [], ◌∷◌, ◌+◌, ◌-◌, ◌==◌, leb, ltb,
  length, get_or, if◌then◌else◌,
}
use mdm.Base.Text.{Text, take}
use mdm.Base.Table.{Table}
use mdm.Schema.{Uuid}

abbrev pub retry_delays_ms : List ℕ
retry_delays_ms = 60000 ∷ 300000 ∷ 1800000 ∷ 7200000 ∷ 43200000 ∷ []

abbrev pub max_retries : ℕ
max_retries = length retry_delays_ms

abbrev pub response_body_limit : ℕ
response_body_limit = 1024

pub data DeliveryStatus : Type 0 where
  pending success failed dead_letter : DeliveryStatus

pub record Delivery : Type 0 where
  pub id : Uuid
  pub webhook_id : Uuid
  pub event : String
  pub status : DeliveryStatus
  pub attempt_count : ℕ
  pub status_code : Option ℕ
  pub response_body : Option Text
  pub duration_ms : Option ℕ
  pub payload : Text
  pub completed_at : Option ℕ

-- What comes of a request, with its duration.
pub data Outcome : Type 0 where
  answered : ℕ → Text → ℕ → Outcome
  unanswered : Text → ℕ → Outcome
  unreadable : ℕ → Text → ℕ → Outcome

-- `response.ok`
abbrev pub is_ok : ℕ → Bool
is_ok status = leb 200 status && leb status 299

-- `RETRY_DELAYS_MS[attempt]`
abbrev pub nth_delay : List ℕ → ℕ → Option ℕ
nth_delay [] n = none
nth_delay (d ∷ ds) zero = some d
nth_delay (d ∷ ds) (suc n) = nth_delay ds n

-- `setTimeout` takes a missing delay for 0.
abbrev pub retry_delay : ℕ → ℕ
retry_delay attempt = get_or (nth_delay retry_delays_ms attempt) 0

module _ (T : Table Delivery) where
  abbrev pub update_delivery : Uuid → (Delivery → Delivery) → Table.State T → Table.State T
  update_delivery id = Table.update T (λ r. r.id == id)

  abbrev pub failed_row : ℕ → ℕ → Text → ℕ → Delivery → Delivery
  failed_row attempt code body duration r = record r {
    status = failed;
    attempt_count = attempt + 1;
    status_code = some code;
    response_body = some (take response_body_limit body);
    duration_ms = some duration;
  }

  abbrev pub success_row : ℕ → ℕ → Text → ℕ → ℕ → Delivery → Delivery
  success_row attempt code body duration now r = record r {
    status = success;
    attempt_count = attempt + 1;
    status_code = some code;
    response_body = some (take response_body_limit body);
    duration_ms = some duration;
    completed_at = some now;
  }

  abbrev pub dead_row : ℕ → Delivery → Delivery
  dead_row now r = record r { status = dead_letter; completed_at = some now }

  -- The end of `attemptDelivery` behind a failure: the next attempt, or the dead letter.
  unfoldable pub after_failure : Uuid → ℕ → ℕ → Table.State T → Table.State T × Option ℕ
  after_failure id attempt now s =
      if ltb attempt (max_retries - 1)
      then (s, some (retry_delay attempt))
      else (update_delivery id (dead_row now) s, none)

  unfoldable pub attempt_delivery :
      Uuid → ℕ → Outcome → ℕ → Table.State T → Table.State T × Option ℕ
  unfolding after_failure
  attempt_delivery id attempt (answered code body duration) now s =
      if is_ok code
      then (update_delivery id (success_row attempt code body duration now) s, none)
      else after_failure id attempt now
          (update_delivery id (failed_row attempt code body duration) s)
  attempt_delivery id attempt (unanswered message duration) now s =
      after_failure id attempt now (update_delivery id (failed_row attempt 0 message duration) s)
  attempt_delivery id attempt (unreadable code message duration) now s =
      after_failure id attempt now (update_delivery id (failed_row attempt code message duration) s)

  -- The attempts from one on, with the delays between them; the first number is the fuel.
  unfoldable pub run_attempts :
      ℕ → Uuid → ℕ → (ℕ → Outcome) → (ℕ → ℕ) → Table.State T → Table.State T × List ℕ
  run_attempts zero id attempt outcomes time s = (s, [])
  run_attempts (suc fuel) id attempt outcomes time s =
      let (s', next) = attempt_delivery id attempt (outcomes attempt) (time attempt) s in
      let rest = run_attempts fuel id (suc attempt) outcomes time s' in
      elim next [ none ↦ (s', []) | some delay ↦ (rest.0, delay ∷ rest.1) ]

  abbrev pub pending_row : Uuid → Uuid → String → Text → Delivery
  pending_row id webhook event body = record {
    id = id;
    webhook_id = webhook;
    event = event;
    status = pending;
    attempt_count = 0;
    status_code = none;
    response_body = none;
    duration_ms = none;
    payload = body;
    completed_at = none;
  }

  unfoldable pub deliver_webhook :
      Uuid → Uuid → String → Text → (ℕ → Outcome) → (ℕ → ℕ) → Table.State T → Table.State T × List ℕ
  deliver_webhook id webhook event body outcomes time s =
      run_attempts max_retries id 0 outcomes time
        (Table.insert T (pending_row id webhook event body) s)
