-- ===== src/RateLimit/Window.antt =====
-- How many requests of one window pass the limiter of src/middleware/rate-limit.ts.
use edgepay_cf.Prelude.{
  ℕ, suc, ◌+◌, ◌≡◌, ◌≤◌, List, [], ◌∷◌, some, All, Option, arith, ltb, Bool-cases, inl, inr,
}
use edgepay_cf.RateLimit.{
  Group, Counter, RateLimitConfig, anon_route_limits, count_request, per_ip_rate_limit, restart,
  read_counter, passes, Visit, visit,
}

open_counter :
    (c : RateLimitConfig) (t : ℕ) (k : Counter)
    → 1 ≤ k.reset_at
    → t ≤ k.reset_at
    → restart c t (read_counter c t (some k)) ≡ k
open_counter c t k r h = ground arith

-- The store shows every request the counter that the request before it left. An eventually consistent
-- store does so only for requests that are far enough apart.
abbrev pub IsInStep : Group → Option Counter → List Visit → Type 0
IsInStep g stored [] = Unit
IsInStep g stored (v ∷ vs) = (v.seen ≡ stored) × IsInStep g (visit g v).0 vs

-- With a window open, and where the store shows every request the counter that the request before it
-- left, the requests that pass until the window's end, together with those that have passed, are within
-- the group's limit.
pub window_bounded :
    (g : Group) (vs : List Visit) (k : Counter)
    → 1 ≤ k.reset_at
    → k.count ≤ (anon_route_limits g).max_requests
    → All (λ v. v.time ≤ k.reset_at) vs
    → IsInStep g (some k) vs
    → k.count + passes g vs ≤ (anon_route_limits g).max_requests
unfolding passes per_ip_rate_limit count_request
window_bounded g [] k r h o st = omega (arith, h)
window_bounded g (v ∷ vs) k r h o st =
    let t = v.time in
    let same : restart (anon_route_limits g) t (read_counter (anon_route_limits g) t (some k)) ≡ k =
      open_counter (anon_route_limits g) t k r o.0 in
    elim (Bool-cases (ltb (anon_route_limits g).max_requests (suc k.count))) [
      | inl b ↦
          rw (st.0, same, b)
            (omega (arith, window_bounded g vs k r h o.1 (rw (st.0, same, b) at st.1)))
      | inr b ↦
          rw (st.0, same, b)
            (omega (
              arith,
              window_bounded g vs (record { count = suc k.count; reset_at = k.reset_at }) r
                  (ground (arith, b)) o.1 (rw (st.0, same, b) at st.1),
            ))
    ]
