-- ===== src/RateLimiter/Refinement.antt =====
-- The limiter against an exact sliding log of the requests that were let pass.
use mdm.Base.{
  ℕ, ◌≡◌, refl, ap, ◌∙◌, Bool, true, not, ◌&&◌, List, ◌∷◌, arith, ◌+◌, ◌-◌, ◌<◌, ◌==◌, ltb, leb,
  count_p, count_p_mono, count_p_unless, if◌then◌else◌, Bool-cases, inl, inr,
}
use mdm.Base.Text.{Text, text_eq, text_eq_iff}
use mdm.Base.Table.{Table, IsLawful, count_p_ext, none-delete}
use mdm.RateLimiter.Window.{
  RateLimitConfig, Entry, span, zremrangebyscore, zcard, prune, record_request, check_rate_limit,
}
use mdm.RateLimiter.Entries.{count_scores, IsLog, count-prune, count-record_request}

-- The specification: a request passes if fewer than the limit passed within the window before it.
unfoldable pub admits : RateLimitConfig → ℕ → List ℕ → Bool
admits config now admitted =
    ltb (count_p (λ t. ltb (now - span config) t) admitted) config.max_requests

unfoldable pub log_request : RateLimitConfig → ℕ → List ℕ → List ℕ
unfolding admits
log_request config now admitted = if admits config now admitted then now ∷ admitted else admitted

module _ (T : Table Entry) (L : IsLawful T) (config : RateLimitConfig) (key : Text) where
  none_later :
      (admitted : List ℕ) (last now : ℕ) (s : Table.State T)
      → last < now
      → IsLog T config key admitted last s
      → count_scores T config key (λ t. leb now t) (prune T config key now s) ≡ 0
  none_later admitted last now s h log =
      count-prune T config key L admitted last now s (λ t. leb now t) h log
      ∙ count_p_mono _ (λ t. ltb last t) admitted (λ t k. ground arith) log.past

  count-recorded :
      (q : ℕ → Bool) (now random : ℕ) (p : Table.State T)
      → count_scores T config key (λ t. leb now t) p ≡ 0
      → count_scores T config key q (record_request T config key now random p)
        ≡ (if q now then 1 else 0) + count_scores T config key q p
  count-recorded q now random p h =
      count-record_request T config key L (λ e. text_eq e.key key && q e.score) now random p
      ∙ rw ((text_eq_iff key key).1 refl) (
          ap (λ n. (if q now then 1 else 0) + n)
            (count_p_unless (λ (e : Entry). text_eq e.key key && leb now e.score) _ _
              (Table.rows T p) h (λ e k. ground arith)))

  recorded_long_lived :
      (now random : ℕ) (p : Table.State T)
      → count_scores T config key (λ t. leb now t) p ≡ 0
      → count_p
          (λ e. text_eq e.key key && ltb e.expires_at (e.score + span config))
          (Table.rows T (record_request T config key now random p))
        ≡ 0
  recorded_long_lived now random p h =
      count-record_request T config key L
        (λ e. text_eq e.key key && ltb e.expires_at (e.score + span config)) now random p
      ∙ ground (
        arith,
        count_p_mono
            (λ e.
              not (text_eq e.key key && (e.score == now && e.random == random))
              && (λ (e : Entry). text_eq e.key key && ltb e.expires_at (e.score + span config))
                  (if text_eq e.key key then record e { expires_at = now + span config } else e))
            (λ (e : Entry). text_eq e.key key && leb now e.score) (Table.rows T p)
            (λ e k. ground arith) h,
      )

  module _ (admitted : List ℕ) (last now random : ℕ) (s : Table.State T) (later : last < now)
      (log : IsLog T config key admitted last s) where
    zcard-prune :
        zcard T key (prune T config key now s) ≡ count_p (λ t. ltb (now - span config) t) admitted
    zcard-prune =
        count_p_ext _ _ (Table.rows T (prune T config key now s)) (λ e. ground arith)
        ∙ (count-prune T config key L admitted last now s (λ t. true) later log
            ∙ count_p_ext _ _ admitted (λ t. ground arith))

    abbrev recorded : Table.State T
    recorded = record_request T config key now random (prune T config key now s)

    clear : count_scores T config key (λ t. leb now t) (prune T config key now s) ≡ 0
    clear = none_later admitted last now s later log

    -- What the recorded entries and the log have in the window.
    count_window :
        (q : ℕ → Bool)
        → count_scores T config key (λ t. ltb (now - span config) t && q t) recorded
          ≡ count_p (λ t. ltb (now - span config) t && q t) (now ∷ admitted)
    count_window q =
        count-recorded (λ t. ltb (now - span config) t && q t) now random (prune T config key now s)
          clear
        ∙ ap (λ n. (if ltb (now - span config) now && q now then 1 else 0) + n)
            (count-prune T config key L admitted last now s (λ t. ltb (now - span config) t && q t)
                later log
              ∙ count_p_ext _ _ admitted (λ t. ground arith))

    passed-IsLog : IsLog T config key (now ∷ admitted) now recorded
    passed-IsLog = record {
      counted = count_window;
      long_lived = recorded_long_lived now random (prune T config key now s) clear;
      past = ground (
        arith,
        count_p_mono (λ t. ltb now t) (λ t. ltb last t) admitted (λ t k. ground arith) log.past,
      );
    }

    stopped-IsLog : IsLog T config key admitted now (zremrangebyscore T key now now recorded)
    stopped-IsLog = record {
      counted = λ q.
          L.count-delete (λ e. text_eq e.key key && (ltb (now - span config) e.score && q e.score))
            _ recorded
          ∙ (count_p_ext
                (λ e.
                  not (text_eq e.key key && (leb now e.score && leb e.score now))
                  && (text_eq e.key key && (ltb (now - span config) e.score && q e.score)))
                _ (Table.rows T recorded) (λ e. ground arith)
              ∙ (count_window (λ t. not (t == now) && q t) ∙ window_before q));
      long_lived =
          none-delete T L (λ e. text_eq e.key key && ltb e.expires_at (e.score + span config)) _
            recorded (recorded_long_lived now random (prune T config key now s) clear);
      past =
          count_p_mono (λ t. ltb now t) (λ t. ltb last t) admitted (λ t k. ground arith) log.past;
    }
      where
        window_before :
            (q : ℕ → Bool)
            → count_p (λ t. ltb (now - span config) t && (not (t == now) && q t)) (now ∷ admitted)
              ≡ count_p (λ t. ltb (now - span config) t && q t) admitted
        window_before q = ground (
          arith,
          count_p_unless (λ t. ltb last t)
              (λ t. ltb (now - span config) t && (not (t == now) && q t))
              (λ t. ltb (now - span config) t && q t) admitted log.past (λ t k. ground arith),
        )

    -- One check at a later time: it decides as the specification does, and the entries of the key
    -- are again those of the log.
    pub check_rate_limit_lem :
        ((check_rate_limit T config key now random s).0.allowed ≡ admits config now admitted)
        × IsLog T config key
            (log_request config now admitted)
            now
            (check_rate_limit T config key now random s).1
    unfolding check_rate_limit admits log_request
    check_rate_limit_lem =
        let same = ap (λ n. ltb n config.max_requests) zcard-prune in
        elim (Bool-cases
          (ltb (count_p (λ t. ltb (now - span config) t) admitted) config.max_requests)) [
            | inl passes ↦ (same, rw (same ∙ passes) (rw (passes, log_request) passed-IsLog))
            | inr stops ↦ (same, rw (same ∙ stops) (rw (stops, log_request) stopped-IsLog))
          ]
