-- ===== src/RateLimiter/Entries.antt =====
-- How many entries of a key the steps of a check leave.
use mdm.Base.{
  ℕ, ◌≡◌, refl, ap, ◌∙◌, Bool, false, not, ◌&&◌, List, arith, ◌+◌, ◌-◌, ◌<◌, ◌==◌, ltb, leb,
  count_p, count_p_unless, if◌then◌else◌,
}
use mdm.Base.Text.{Text, text_eq, text_eq_iff}
use mdm.Base.Table.{Table, IsLawful, count_p_ext}
use mdm.RateLimiter.Window.{RateLimitConfig, Entry, span, drop_expired, zadd, prune, record_request}

module _ (T : Table Entry) (config : RateLimitConfig) (key : Text) where
  -- The entries of the key whose score passes a test.
  abbrev pub count_scores : (ℕ → Bool) → Table.State T → ℕ
  count_scores q s = count_p (λ e. text_eq e.key key && q e.score) (Table.rows T s)

  -- The entries in the window before a time, as the times of the requests that were let pass.
  pub record IsLog (admitted : List ℕ) (last : ℕ) (s : Table.State T) : Type 0 where
    pub counted :
        (q : ℕ → Bool)
        → count_scores (λ t. ltb (last - span config) t && q t) s
          ≡ count_p (λ t. ltb (last - span config) t && q t) admitted
    pub long_lived :
        count_p
          (λ e. text_eq e.key key && ltb e.expires_at (e.score + span config))
          (Table.rows T s)
        ≡ 0
    pub past : count_p (λ t. ltb last t) admitted ≡ 0

  module _ (L : IsLawful T) where
    pub count-prune :
        (admitted : List ℕ) (last now : ℕ) (s : Table.State T) (q : ℕ → Bool)
        → last < now
        → IsLog admitted last s
        → count_scores q (prune T config key now s)
          ≡ count_p (λ t. ltb (now - span config) t && q t) admitted
    count-prune admitted last now s q h log =
        L.count-delete _ _ (drop_expired T key now s)
        ∙ (L.count-delete _ _ s
            ∙ (count_p_unless
                  (λ (e : Entry). text_eq e.key key && ltb e.expires_at (e.score + span config)) _ _
                  (Table.rows T s) log.long_lived (λ e live. pointwise e live)
                ∙ (log.counted (λ t. ltb (now - span config) t && q t)
                    ∙ count_p_ext _ _ admitted (λ t. ground arith))))
      where
        pointwise :
            (e : Entry)
            → (text_eq e.key key && ltb e.expires_at (e.score + span config)) ≡ false
            → (not (text_eq e.key key && leb e.expires_at now)
                && (not (text_eq e.key key && (leb 0 e.score && leb e.score (now - span config)))
                    && (text_eq e.key key && q e.score)))
              ≡ (text_eq e.key key
                  && (ltb (last - span config) e.score
                      && (ltb (now - span config) e.score && q e.score)))
        pointwise e live = ground arith

    pub count-record_request :
        (q : Entry → Bool) (now random : ℕ) (s : Table.State T)
        → count_p q (Table.rows T (record_request T config key now random s))
          ≡ (if q
                (record { key = key; score = now; random = random; expires_at = now + span config })
              then 1
              else 0)
            + count_p
                (λ e.
                  not (text_eq e.key key && (e.score == now && e.random == random))
                  && q (
                      if text_eq e.key key then record e { expires_at = now + span config } else e))
                (Table.rows T s)
    count-record_request q now random s =
        L.count-update q _ _ (zadd T key now random s)
        ∙ (L.count-insert _ (record { key = key; score = now; random = random; expires_at = now }) _
            ∙ rw ((text_eq_iff key key).1 refl) (
                ap
                  (λ n.
                    (if q (record {
                      key = key;
                      score = now;
                      random = random;
                      expires_at = now + span config;
                    })
                      then 1
                      else 0)
                    + n)
                  (L.count-delete _ _ s)))
