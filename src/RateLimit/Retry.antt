-- ===== src/RateLimit/Retry.antt =====
-- services/api/internal/httpapi/security.go: what a refused request is told, and when it may come again.
use xpace.Prelude.{ℕ, ◌+◌, ◌*◌, ◌≤◌, ◌<◌, ◌≡◌, refl, String, false, true, arith}
use xpace.RateLimit.{
  Limiter, Decision, Request, respond, too_many_requests, find, allow, second, retry_after_header,
  request_limit, request_key, middleware,
}

module _ (l : Limiter) (now limit duration : ℕ) (key : String) where
  -- A refused request changes nothing, and is told a wait that is positive, that is no longer than
  -- the duration where the clock has not gone back, and after which the same request is admitted.
  pub allow_refused :
      (allow l now key limit duration).0.allowed ≡ false
      → (find key l.windows).started ≤ now
      → let retry = (allow l now key limit duration).0.retry_after in
        ((allow l now key limit duration).1 ≡ l)
        × (0 < retry)
        × (retry ≤ duration)
        × ((allow l (now + retry) key limit duration).0.allowed ≡ true)
  unfolding allow
  allow_refused h clock = (ground arith, ground arith, ground arith, ground arith)

  refused-state :
      (allow l now key limit duration).0.allowed ≡ false → (allow l now key limit duration).1 ≡ l
  unfolding allow
  refused-state h = ground arith

  -- Until the wait that a refused request was told is over, the limiter refuses each further request
  -- under its key whose limit is not higher, while the window of the key is still the same.
  pub allow_refused_before :
      (l' : Limiter) (t limit' : ℕ)
      → (allow l now key limit duration).0.allowed ≡ false
      → t < now + (allow l now key limit duration).0.retry_after
      → limit' ≤ limit
      → find key l'.windows ≡ find key l.windows
      → (allow l' t key limit' duration).0.allowed ≡ false
  unfolding allow
  allow_refused_before l' t limit' h before lower same = ground arith

refused_of_response :
    (limit : ℕ) (d : Decision) {rate wait : ℕ}
    → respond limit d ≡ too_many_requests rate wait
    → d.allowed ≡ false
refused_of_response limit d h = ground arith

response_of_refused :
    (limit : ℕ) (d : Decision)
    → d.allowed ≡ false
    → respond limit d ≡ too_many_requests limit (retry_after_header d.retry_after)
response_of_refused limit d h = rw h

-- The wait that the middleware computes for a request.
abbrev pub wait : Limiter → ℕ → Request → ℕ
wait l now r = (allow l now (request_key r) (request_limit r).0 (request_limit r).1).0.retry_after

-- The `Retry-After` header is the wait cut down to whole seconds: a client that waits exactly as
-- long as it says, where the wait itself is longer, is refused once more.
pub middleware-retry_early :
    (l : Limiter) (now limit header : ℕ) (r : Request)
    → (middleware l now r).0 ≡ too_many_requests limit header
    → header * second < wait l now r
    → let l' = (middleware l now r).1 in
      let later = now + header * second in
      (middleware l' later r).0
      ≡ too_many_requests (request_limit r).0 (retry_after_header (wait l' later r))
unfolding middleware
middleware-retry_early l now limit header r h e =
    let (rate, window) = request_limit r in
    let refused = refused_of_response rate (allow l now (request_key r) rate window).0 h in
    let same = refused-state l now rate window (request_key r) refused in
    let later = now + header * second in
    let again =
      allow_refused_before l now rate window (request_key r) l later rate refused (omega arith)
        (omega arith) refl in
    rw same (response_of_refused rate (allow l later (request_key r) rate window).0 again)
