-- ===== src/Examples/LimiterCases.antt =====
-- The rate limiter: two requests a second, and a client that sends three.
use mdm.Base.{ℕ, ◌≡◌, ◌≤◌, ◌-◌, refl, true, false, List, [], ◌∷◌, arith, ltb, count_p}
use mdm.Base.Text.{Text, codes}
use mdm.Base.Table.{Table, list_table, list_table-IsLawful}
use mdm.RateLimiter.Window.{RateLimitConfig, Entry, span, login, classify_route, check_rate_limit}
use mdm.RateLimiter.Runs.{
  decide_all, log_all, last_time, run_checks, run_checks_lem, check_rate_limit_recovers,
}

abbrev entries : Table Entry
entries = list_table Entry

abbrev two_a_second : RateLimitConfig
two_a_second = record { max_requests = 2; window_seconds = 1 }

abbrev client : Text
client = codes "ip:10.0.0.7"

abbrev three_requests : List (ℕ × ℕ)
three_requests = (5000, 1) ∷ (5100, 2) ∷ (5200, 3) ∷ (6150, 4) ∷ []

login_is_login : classify_route (codes "/api/v1/auth/login?next=/") ≡ login
unfolding classify_route
login_is_login = refl

third_is_refused :
    (run_checks entries two_a_second client three_requests []).0 ≡ true ∷ true ∷ false ∷ true ∷ []
unfolding run_checks check_rate_limit
third_is_refused = refl

run_checks_lem_example :
    ((run_checks entries two_a_second client three_requests []).0
      ≡ decide_all two_a_second three_requests [])
    × (count_p
          (λ t. ltb (last_time 0 three_requests - span two_a_second) t)
          (log_all two_a_second three_requests [])
        ≤ 2)
run_checks_lem_example =
    run_checks_lem entries (list_table-IsLawful Entry) two_a_second client three_requests []
      (omega arith, (omega arith, (omega arith, (omega arith, tt)))) refl

-- The store of a client that has used up its two requests.
abbrev used_up : List Entry
used_up =
    record { key = client; score = 5000; random = 1; expires_at = 6100 }
    ∷ record { key = client; score = 5100; random = 2; expires_at = 6100 }
    ∷ []

check_rate_limit_recovers_example :
    (check_rate_limit entries two_a_second client 6200 9 used_up).0.allowed ≡ true
check_rate_limit_recovers_example =
    check_rate_limit_recovers entries (list_table-IsLawful Entry) two_a_second client 6200 9 used_up
      (omega arith) refl

used_up_refused : (check_rate_limit entries two_a_second client 5100 9 used_up).0.allowed ≡ false
unfolding check_rate_limit
used_up_refused = refl
