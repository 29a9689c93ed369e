-- ===== src/RateLimiter/Window.antt =====
-- The sorted sets `ratelimit:<identifier>` as a table of entries: the key, the score, the random
-- part of the member `<now>:<random>`, and the time at which `EXPIRE` lets the key go. Times are in
-- milliseconds; the commands of a pipeline run at the time that the code has read.
use mdm.Base.{
  ℕ, Bool, ◌&&◌, Option, none, some, List, [], ◌∷◌, ◌++◌, ◌+◌, ◌-◌, ◌*◌, ◌/◌, ◌==◌, ltb, leb, any,
  count_p, if◌then◌else◌,
}
use mdm.Base.Text.{Text, codes, text_eq, starts_with}
use mdm.Base.Table.{Table}

pub record RateLimitConfig : Type 0 where
  pub max_requests : ℕ
  pub window_seconds : ℕ

-- The classes of routes, the keys of `ROUTE_LIMITS`.
pub data RouteClass : Type 0 where
  login general upload bulk : RouteClass

abbrev pub route_limits : RouteClass → RateLimitConfig
route_limits login = record { max_requests = 5; window_seconds = 60 }
route_limits general = record { max_requests = 100; window_seconds = 60 }
route_limits upload = record { max_requests = 10; window_seconds = 60 }
route_limits bulk = record { max_requests = 20; window_seconds = 60 }

abbrev pub class_name : RouteClass → Text
class_name login = codes "login"
class_name general = codes "general"
class_name upload = codes "upload"
class_name bulk = codes "bulk"

abbrev login_paths : List Text
login_paths = codes "/api/v1/auth/login" ∷ codes "/api/v1/auth/refresh" ∷ []

abbrev upload_paths : List Text
upload_paths = codes "/api/v1/apps/upload" ∷ codes "/api/v1/certificates/upload" ∷ []

abbrev bulk_paths : List Text
bulk_paths = codes "/api/v1/commands/bulk" ∷ codes "/api/v1/devices/bulk" ∷ []

unfoldable pub classify_route : Text → RouteClass
classify_route url =
    if any (starts_with url) login_paths
    then login
    else if any (starts_with url) upload_paths
    then upload
    else if any (starts_with url) bulk_paths
    then bulk
    else general

-- The identifier: the user's id, or else the address.
unfoldable pub get_identifier : Option Text → Text → Text
get_identifier (some sub) ip = codes "user:" ++ sub
get_identifier none ip = codes "ip:" ++ ip

pub record Entry : Type 0 where
  pub key : Text
  pub score : ℕ
  pub random : ℕ
  pub expires_at : ℕ

-- The result of a check.
pub record Decision : Type 0 where
  pub allowed : Bool
  pub remaining : ℕ
  pub reset_at : ℕ

abbrev pub span : RateLimitConfig → ℕ
span config = config.window_seconds * 1000

module _ (T : Table Entry) where
  -- A key that has expired is gone before the first command.
  abbrev pub drop_expired : Text → ℕ → Table.State T → Table.State T
  drop_expired key now = Table.delete T (λ e. text_eq e.key key && leb e.expires_at now)

  -- `ZREMRANGEBYSCORE`
  abbrev pub zremrangebyscore : Text → ℕ → ℕ → Table.State T → Table.State T
  zremrangebyscore key low high =
      Table.delete T (λ e. text_eq e.key key && (leb low e.score && leb e.score high))

  -- `ZCARD`
  abbrev pub zcard : Text → Table.State T → ℕ
  zcard key s = count_p (λ e. text_eq e.key key) (Table.rows T s)

  -- `ZADD` of the member `<now>:<random>` with the score `now`.
  abbrev pub zadd : Text → ℕ → ℕ → Table.State T → Table.State T
  zadd key now random s =
      Table.insert T (record { key = key; score = now; random = random; expires_at = now })
        (Table.delete T (λ e. text_eq e.key key && (e.score == now && e.random == random)) s)

  -- `EXPIRE`
  abbrev pub expire : Text → ℕ → Table.State T → Table.State T
  expire key time = Table.update T (λ e. text_eq e.key key) (λ e. record e { expires_at = time })

  -- The entries that are still in the window.
  abbrev pub prune : RateLimitConfig → Text → ℕ → Table.State T → Table.State T
  prune config key now s = zremrangebyscore key 0 (now - span config) (drop_expired key now s)

  abbrev pub record_request : RateLimitConfig → Text → ℕ → ℕ → Table.State T → Table.State T
  record_request config key now random s = expire key (now + span config) (zadd key now random s)

  unfoldable pub check_rate_limit :
      RateLimitConfig → Text → ℕ → ℕ → Table.State T → Decision × Table.State T
  check_rate_limit config key now random s =
      let window = prune config key now s in
      let current = zcard key window in
      let recorded = record_request config key now random window in
      let allowed = ltb current config.max_requests in
      (
        record {
          allowed = allowed;
          remaining = config.max_requests - current - (if allowed then 1 else 0);
          reset_at = (now + span config + 999) / 1000;
        },
        if allowed then recorded else zremrangebyscore key now now recorded,
      )

  abbrev pub limiter_key : Option Text → Text → Text → Text
  limiter_key user ip url =
      codes "ratelimit:"
      ++ (get_identifier user ip ++ (codes ":" ++ class_name (classify_route url)))

  -- The middleware: the decision whose headers are sent, if Redis answers; a request goes on unless
  -- the decision is a refusal.
  unfoldable pub rate_limiter :
      Bool → Option Text → Text → Text → ℕ → ℕ → Table.State T → Option Decision × Table.State T
  rate_limiter online user ip url now random s =
      let (decision, s') =
        check_rate_limit (route_limits (classify_route url)) (limiter_key user ip url) now random
          s in
      if online then (some decision, s') else (none, s)
