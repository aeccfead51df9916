-- ===== src/RateLimit/Tests.antt =====
-- Runs of src/middleware/rate-limit.ts.
use edgepay_cf.Prelude.{ℕ, Option, List, ◌+◌, ◌≡◌, ◌≤◌, none, some, [], ◌∷◌, refl, arith}
use edgepay_cf.RateLimit.{
  Counter, Visit, install, passes, per_ip_rate_limit, count_request, anon_route_limits,
}
use edgepay_cf.RateLimit.Window.{window_bounded}

-- Of five installations in an hour three pass.
abbrev counted : ℕ → Option Counter
counted n = some (record { count = n; reset_at = 3_600_010 })

abbrev at : ℕ → Option Counter → Visit
at t k = record { time = t; seen = k }

three_pass :
    passes install (
      at 10 none
      ∷ at 20 (counted 1)
      ∷ at 30 (counted 2)
      ∷ at 40 (counted 3)
      ∷ at 50 (counted 3)
      ∷ [])
    ≡ 3
unfolding passes per_ip_rate_limit count_request anon_route_limits
three_pass = refl

abbrev visits : List Visit
visits = at 20 (counted 1) ∷ at 30 (counted 2) ∷ at 40 (counted 3) ∷ []

abbrev opened : Counter
opened = record { count = 1; reset_at = 3_600_010 }

window_bounded_example : 1 + passes install visits ≤ 3
unfolding anon_route_limits per_ip_rate_limit count_request
window_bounded_example =
    window_bounded install visits opened (omega arith) (omega arith)
      (omega arith, (omega arith, (omega arith, tt))) (refl, (refl, (refl, tt)))
