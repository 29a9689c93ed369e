-- ===== src/RateLimiter/Runs.antt =====
-- Sequences of checks of one key, and single checks at the edges.
use mdm.Base.{
  ℕ, ◌≡◌, refl, ap, ◌∙◌, Bool, true, false, not, ◌&&◌, List, [], ◌∷◌, arith, ◌+◌, ◌-◌, ◌<◌, ◌≤◌,
  ◌==◌, ltb, leb, count_p, count_p_le, count_p_mono, count_p-false,
}
use mdm.Base.Text.{Text, text_eq}
use mdm.Base.Table.{Table, IsLawful}
use mdm.RateLimiter.Window.{
  RateLimitConfig, Entry, span, drop_expired, zcard, prune, record_request, check_rate_limit,
}
use mdm.RateLimiter.Entries.{count_scores, IsLog}
use mdm.RateLimiter.Refinement.{admits, log_request, check_rate_limit_lem}

-- Requests with their times and random parts, each later than the one before.
abbrev pub IsLater : ℕ → List (ℕ × ℕ) → Type 0
IsLater last [] = Unit {0}
IsLater last ((now, random) ∷ requests) = (last < now) × IsLater now requests

unfoldable pub decide_all : RateLimitConfig → List (ℕ × ℕ) → List ℕ → List Bool
unfolding admits log_request
decide_all config [] admitted = []
decide_all config ((now, random) ∷ requests) admitted =
    admits config now admitted ∷ decide_all config requests (log_request config now admitted)

-- What the specification lets pass in the end.
unfoldable pub log_all : RateLimitConfig → List (ℕ × ℕ) → List ℕ → List ℕ
unfolding log_request
log_all config [] admitted = admitted
log_all config ((now, random) ∷ requests) admitted =
    log_all config requests (log_request config now admitted)

unfoldable pub last_time : ℕ → List (ℕ × ℕ) → ℕ
last_time last [] = last
last_time last ((now, random) ∷ requests) = last_time now requests

log_request_bounds :
    (config : RateLimitConfig) (last now : ℕ) (admitted : List ℕ)
    → last < now
    → count_p (λ t. ltb (last - span config) t) admitted ≤ config.max_requests
    → count_p (λ t. ltb (now - span config) t) (log_request config now admitted)
      ≤ config.max_requests
unfolding log_request admits
log_request_bounds config last now admitted later h = ground (
  arith,
  count_p_le (λ t. ltb (now - span config) t) (λ t. ltb (last - span config) t) admitted
      (λ t k. ground arith),
)

-- In any run of requests at growing times, no more than the limit pass within a window, the one
-- before the last request.
log_all_bounds :
    (config : RateLimitConfig) (last : ℕ) (requests : List (ℕ × ℕ)) (admitted : List ℕ)
    → IsLater last requests
    → count_p (λ t. ltb (last - span config) t) admitted ≤ config.max_requests
    → count_p
        (λ t. ltb (last_time last requests - span config) t)
        (log_all config requests admitted)
      ≤ config.max_requests
unfolding log_all last_time
log_all_bounds config last [] admitted later h = h
log_all_bounds config last ((now, random) ∷ requests) admitted later h =
    log_all_bounds config now requests (log_request config now admitted) later.1
      (log_request_bounds config last now admitted later.0 h)

module _ (T : Table Entry) where
  unfoldable pub run_checks :
      RateLimitConfig → Text → List (ℕ × ℕ) → Table.State T → List Bool × Table.State T
  run_checks config key [] s = ([], s)
  run_checks config key ((now, random) ∷ requests) s =
      let first = check_rate_limit T config key now random s in
      let rest = run_checks config key requests first.1 in (first.0.allowed ∷ rest.0, rest.1)

  module _ (L : IsLawful T) (config : RateLimitConfig) (key : Text) where
    run_checks-IsLog :
        (requests : List (ℕ × ℕ)) (admitted : List ℕ) (last : ℕ) (s : Table.State T)
        → IsLater last requests
        → IsLog T config key admitted last s
        → (run_checks config key requests s).0 ≡ decide_all config requests admitted
    unfolding run_checks decide_all
    run_checks-IsLog [] admitted last s later log = refl
    run_checks-IsLog ((now, random) ∷ requests) admitted last s later log =
        let (same, log') =
          check_rate_limit_lem T L config key admitted last now random s later.0 log in
        let rest = run_checks-IsLog requests (log_request config now admitted) now _ later.1 log' in
        rw same (ap (λ ds. admits config now admitted ∷ ds) rest)

    -- A run of requests at growing times for a key without entries: each is let pass exactly if the
    -- specification, which keeps the times of all that passed, lets it pass; and of these no more
    -- than the limit lie in the window that ends with the last request.
    pub run_checks_lem :
        (requests : List (ℕ × ℕ)) (s : Table.State T)
        → IsLater 0 requests
        → zcard T key s ≡ 0
        → ((run_checks config key requests s).0 ≡ decide_all config requests [])
          × (count_p (λ t. ltb (last_time 0 requests - span config) t) (log_all config requests [])
              ≤ config.max_requests)
    run_checks_lem requests s later empty = (
      run_checks-IsLog requests [] 0 s later record {
        counted = λ q.
            count_p_mono (λ e. text_eq e.key key && (ltb (0 - span config) e.score && q e.score))
              (λ (e : Entry). text_eq e.key key) (Table.rows T s) (λ e k. ground arith) empty;
        long_lived =
            count_p_mono (λ e. text_eq e.key key && ltb e.expires_at (e.score + span config))
              (λ (e : Entry). text_eq e.key key) (Table.rows T s) (λ e k. ground arith) empty;
        past = refl;
      },
      log_all_bounds config 0 requests [] later (omega arith),
    )

    -- A client that has waited out the window is let pass, if the limit is not 0: no entry of the
    -- key lies in the window, whatever else the store holds.
    pub check_rate_limit_recovers :
        (now random : ℕ) (s : Table.State T)
        → 1 ≤ config.max_requests
        → count_scores T config key (λ t. ltb (now - span config) t) s ≡ 0
        → (check_rate_limit T config key now random s).0.allowed ≡ true
    unfolding check_rate_limit
    check_rate_limit_recovers now random s h quiet =
        let none_left : zcard T key (prune T config key now s) ≡ 0 =
          L.count-delete _ _ (drop_expired T key now s)
          ∙ (L.count-delete _ _ s
              ∙ count_p_mono
                  (λ e.
                    not (text_eq e.key key && leb e.expires_at now)
                    && (not
                          (text_eq e.key key && (leb 0 e.score && leb e.score (now - span config)))
                        && text_eq e.key key))
                  (λ (e : Entry). text_eq e.key key && ltb (now - span config) e.score)
                  (Table.rows T s) (λ e k. ground arith) quiet) in
        rw none_left (ground arith)

    -- A refusal takes with it every entry of the key that has the same millisecond, not only the one
    -- that it added.
    pub check_rate_limit_forgets :
        (now random : ℕ) (s : Table.State T)
        → (check_rate_limit T config key now random s).0.allowed ≡ false
        → count_scores T config key (λ t. t == now) (check_rate_limit T config key now random s).1
          ≡ 0
    unfolding check_rate_limit
    check_rate_limit_forgets now random s refused = rw refused (
        L.count-delete (λ e. text_eq e.key key && e.score == now) _
          (record_request T config key now random (prune T config key now s))
        ∙ count_p_mono
            (λ e.
              not (text_eq e.key key && (leb now e.score && leb e.score now))
              && (text_eq e.key key && e.score == now))
            (λ e. false)
            (Table.rows T (record_request T config key now random (prune T config key now s)))
            (λ e k. ground arith)
            (count_p-false
              (Table.rows T (record_request T config key now random (prune T config key now s)))))
