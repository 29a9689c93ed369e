-- ===== src/Webhooks/Frame.antt =====
-- What the attempts of a delivery leave as it is in webhook_deliveries.
use mdm.Base.{
  ℕ, zero, suc, ◌≡◌, refl, ◌∙◌, Bool, ◌||◌, Option, ◌-◌, ◌==◌, if_P, ltb, count_p, Bool-cases,
  Option-cases, inl, inr,
}
use mdm.Base.Table.{Table, IsLawful, count_p_ext}
use mdm.Schema.{Uuid}
use mdm.Webhooks.Delivery.{
  Delivery, Outcome, answered, unanswered, unreadable, is_ok, max_retries, update_delivery,
  failed_row, success_row, dead_row, after_failure, attempt_delivery, run_attempts,
}

module _ (T : Table Delivery) (L : IsLawful T) where
  count-update_delivery :
      (q : Delivery → Bool) (id : Uuid) (f : Delivery → Delivery) (s : Table.State T)
      → ((r : Delivery) → (f r).id ≡ r.id)
      → count_p (λ r. r.id == id || q r) (Table.rows T (update_delivery T id f s))
        ≡ count_p (λ r. r.id == id || q r) (Table.rows T s)
  count-update_delivery q id f s h =
      L.count-update (λ r. r.id == id || q r) _ f s
      ∙ count_p_ext _ _ (Table.rows T s) (λ r. elim (Bool-cases (r.id == id)) [
        | inl same ↦ rw same (rw (h r) (rw same))
        | inr other ↦ rw other (rw other)
      ])

  count-after_failure :
      (q : Delivery → Bool) (id attempt now : Uuid) (s : Table.State T)
      → count_p (λ r. r.id == id || q r) (Table.rows T (after_failure T id attempt now s).0)
        ≡ count_p (λ r. r.id == id || q r) (Table.rows T s)
  unfolding after_failure
  count-after_failure q id attempt now s =
      if_P
        (λ (x : Table.State T × Option ℕ).
          count_p (λ r. r.id == id || q r) (Table.rows T x.0)
          ≡ count_p (λ r. r.id == id || q r) (Table.rows T s))
        (ltb attempt (max_retries - 1)) _ _ refl
        (count-update_delivery q id (dead_row T now) s (λ r. refl))

  count-attempt_delivery :
      (q : Delivery → Bool) (id attempt : ℕ) (o : Outcome) (now : ℕ) (s : Table.State T)
      → count_p (λ r. r.id == id || q r) (Table.rows T (attempt_delivery T id attempt o now s).0)
        ≡ count_p (λ r. r.id == id || q r) (Table.rows T s)
  unfolding attempt_delivery
  count-attempt_delivery q id attempt (answered code body duration) now s =
      if_P
        (λ (x : Table.State T × Option ℕ).
          count_p (λ r. r.id == id || q r) (Table.rows T x.0)
          ≡ count_p (λ r. r.id == id || q r) (Table.rows T s))
        (is_ok code) _ _
        (count-update_delivery q id (success_row T attempt code body duration now) s (λ r. refl))
        (count-after_failure q id attempt now _
          ∙ count-update_delivery q id (failed_row T attempt code body duration) s (λ r. refl))
  count-attempt_delivery q id attempt (unanswered message duration) now s =
      count-after_failure q id attempt now _
      ∙ count-update_delivery q id (failed_row T attempt 0 message duration) s (λ r. refl)
  count-attempt_delivery q id attempt (unreadable code message duration) now s =
      count-after_failure q id attempt now _
      ∙ count-update_delivery q id (failed_row T attempt code message duration) s (λ r. refl)

  pub count-run_attempts :
      (q : Delivery → Bool) (id fuel attempt : ℕ) (outcomes : ℕ → Outcome) (time : ℕ → ℕ)
      (s : Table.State T)
      → count_p
          (λ r. r.id == id || q r)
          (Table.rows T (run_attempts T fuel id attempt outcomes time s).0)
        ≡ count_p (λ r. r.id == id || q r) (Table.rows T s)
  unfolding run_attempts
  count-run_attempts q id zero attempt outcomes time s = refl
  count-run_attempts q id (suc fuel) attempt outcomes time s =
      let kept = count-attempt_delivery q id attempt (outcomes attempt) (time attempt) s in
      elim (Option-cases (attempt_delivery T id attempt (outcomes attempt) (time attempt) s).1) [
        | inl done ↦ rw (done, run_attempts) kept
        | inr (delay, again) ↦
            rw (again, run_attempts)
              (count-run_attempts q id fuel (suc attempt) outcomes time _ ∙ kept)
      ]
