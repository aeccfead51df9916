-- ===== src/RateLimit.antt =====
-- The per-IP limiter of src/middleware/rate-limit.ts (`perIpRateLimit`), for one counter. The reply of
-- the key-value store and whether its `put` throws are arguments; the clock stands still after the
-- read, so the readings that follow it are one. Metrics and pages are not modelled.
pub mod Window
mod Tests
use edgepay_cf.Prelude.{
  ℕ, suc, ◌+◌, ◌-◌, ◌*◌, ◌/◌, Bool, false, List, [], ◌∷◌, Option, none, some, ◌==◌, ltb,
  if◌then◌else◌,
}

pub record RateLimitConfig : Type 0 where
  pub window_sec : ℕ
  pub max_requests : ℕ

pub data Group : Type 0 where
  api_read api_write mobile install otp password checkout : Group

abbrev config : ℕ → ℕ → RateLimitConfig
config w n = record { window_sec = w; max_requests = n }

unfoldable pub anon_route_limits : Group → RateLimitConfig
anon_route_limits api_read = config 60 120
anon_route_limits api_write = config 60 30
anon_route_limits mobile = config 60 60
anon_route_limits install = config 3_600 3
anon_route_limits otp = config 3_600 10
anon_route_limits password = config 3_600 5
anon_route_limits checkout = config 600 30

-- The text `count|resetAt` of a key.
pub record Counter : Type 0 where
  pub count : ℕ
  pub reset_at : ℕ

pub data KvReply : Type 0 where
  unavailable : KvReply
  value : Option Counter → KvReply

-- 503, 429 with the seconds to wait, or the rest of the handling with the requests that remain.
pub data RateAnswer : Type 0 where
  degraded : RateAnswer
  limited passed : ℕ → RateAnswer

abbrev pub new_reset : RateLimitConfig → ℕ → ℕ
new_reset c now = now + c.window_sec * 1_000

-- `count` and `resetAt` before the request is counted. A stored time of 0 counts as none.
abbrev pub read_counter : RateLimitConfig → ℕ → Option Counter → Counter
read_counter c now none = record { count = 0; reset_at = new_reset c now }
read_counter c now (some k) = record {
  count = k.count;
  reset_at = if k.reset_at == 0 then new_reset c now else k.reset_at;
}

abbrev pub restart : RateLimitConfig → ℕ → Counter → Counter
restart c now k = if ltb k.reset_at now then record { count = 0; reset_at = new_reset c now } else k

-- One request from the counter on; the first part is what the store holds afterwards.
unfoldable pub count_request :
    RateLimitConfig → Bool → ℕ → Option Counter → Option Counter × RateAnswer
count_request c put_throws now stored =
    let k = restart c now (read_counter c now stored) in
    let n = suc k.count in
    if ltb c.max_requests n
    then (stored, limited ((k.reset_at - now + 999) / 1_000))
    else if put_throws
    then (stored, degraded)
    else (some (record { count = n; reset_at = k.reset_at }), passed (c.max_requests - n))

unfoldable pub per_ip_rate_limit :
    Group → Bool → ℕ → KvReply → Option Counter → Option Counter × RateAnswer
per_ip_rate_limit g put_throws now unavailable stored = (stored, degraded)
per_ip_rate_limit g put_throws now (value v) stored =
    count_request (anon_route_limits g) put_throws now v

abbrev pub is_passed : RateAnswer → ℕ
is_passed (passed n) = 1
is_passed _ = 0

-- A request: its time, and the counter that the store shows it.
pub record Visit : Type 0 where
  pub time : ℕ
  pub seen : Option Counter

abbrev pub visit : Group → Visit → Option Counter × RateAnswer
visit g v = per_ip_rate_limit g false v.time (value v.seen) v.seen

-- How many of some requests pass, whatever the store shows each of them.
unfoldable pub passes : Group → List Visit → ℕ
passes g [] = 0
passes g (v ∷ vs) = is_passed (visit g v).1 + passes g vs
