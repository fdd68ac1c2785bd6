-- ===== src/RateLimit/Examples.antt =====
-- Runs of the limiter, and its theorems at concrete requests.
use xpace.Prelude.{
  ℕ, ◌+◌, ◌*◌, ◌≤◌, ◌<◌, ◌≡◌, refl, ◌≢◌, String, true, false, inl, List, [], ◌∷◌, arith, eq_iff,
}
use Prim.Native.Nat.{min}
use xpace.RateLimit.{
  Limiter, Request, forwarded, too_many_requests, new_rate_limiter, allow, middleware,
  request_limit, second, minute, retry_after_header, find, rate_limit_bucket,
}
use xpace.RateLimit.Burst.{Arrival, admitted, requests, admitted_burst}
use xpace.RateLimit.Isolation.{allow_isolated}
use xpace.RateLimit.Retry.{allow_refused, allow_refused_before, wait, middleware-retry_early}

abbrev login : Request
login = record { method = "POST"; path = "/api/v1/auth/login"; client = "203.0.113.9" }

abbrev login_key : String
login_key = "203.0.113.9|/api/v1/auth/login"

-- The tenth login within a minute was admitted.
abbrev busy : Limiter
busy = record { windows = (login_key, record { started = 1000; count = 10 }) ∷ [] }

first_login : (middleware new_rate_limiter 1000 login).0 ≡ forwarded 10
unfolding middleware new_rate_limiter request_limit allow rate_limit_bucket find
first_login = refl

eleventh_login : (middleware busy 500001000 login).0 ≡ too_many_requests 10 59
unfolding middleware request_limit allow rate_limit_bucket find retry_after_header
eleventh_login = refl

middleware-retry_early_example :
    (middleware (middleware busy 500001000 login).1 (500001000 + 59 * second) login).0
    ≡ too_many_requests (request_limit login).0 (
        retry_after_header
          (wait (middleware busy 500001000 login).1 (500001000 + 59 * second) login))
unfolding request_limit allow rate_limit_bucket find
middleware-retry_early_example =
    middleware-retry_early busy 500001000 10 59 login eleventh_login (omega arith)

refused : (allow busy 2000 login_key 10 minute).0.allowed ≡ false
unfolding allow find
refused = refl

allow_refused_example :
    let retry = (allow busy 2000 login_key 10 minute).0.retry_after in
    ((allow busy 2000 login_key 10 minute).1 ≡ busy)
    × (0 < retry)
    × (retry ≤ minute)
    × ((allow busy (2000 + retry) login_key 10 minute).0.allowed ≡ true)
unfolding find
allow_refused_example = allow_refused busy 2000 10 minute login_key refused (omega arith)

allow_refused_before_example : (allow busy 3000 login_key 5 minute).0.allowed ≡ false
unfolding allow find
allow_refused_before_example =
    allow_refused_before busy 2000 10 minute login_key busy 3000 5 refused (omega arith)
      (omega arith) refl

abbrev arrivals : List Arrival
arrivals = (1500, "b") ∷ (2000, "a") ∷ (2500, "a") ∷ []

admitted_burst_example :
    admitted (λ _. 2) minute "a" new_rate_limiter ((1000, "a") ∷ arrivals)
    ≡ min 2 (ℕ.suc (requests "a" arrivals))
unfolding find new_rate_limiter
admitted_burst_example =
    admitted_burst (λ _. 2) minute "a" 1000 (omega arith) new_rate_limiter arrivals (inl refl)
      (omega arith) (omega arith)

a_not_b : ◌≢◌ {A = String} "a" "b"
a_not_b = λ e. cc ((eq_iff "a" "b").1 e)

allow_isolated_example :
    (allow (allow new_rate_limiter 1000 "a" 5 minute).1 2000 "b" 7 minute).0
    ≡ (allow new_rate_limiter 2000 "b" 7 minute).0
unfolding new_rate_limiter
allow_isolated_example =
    allow_isolated 1000 2000 5 minute 7 (omega arith) "a" "b" a_not_b new_rate_limiter tt
