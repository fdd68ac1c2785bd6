-- ===== src/RateLimit.antt =====
-- services/api/internal/httpapi/security.go: the request limiter. Times and durations are
-- nanoseconds, counted from Go's zero time, so that `IsZero` is a test for 0. The map of windows is
-- an association list. The tests on `now.Sub(window.started)` are written without the subtraction,
-- so that they are those of signed durations. The mutex makes `allow` one step.
pub mod Windows
pub mod Burst
pub mod Isolation
pub mod Retry
mod Examples
use text.Mathlib.Text.{starts_with}
use xpace.Prelude.{
  ℕ, ◌+◌, ◌-◌, ◌*◌, ◌/◌, String, Bool, true, false, not, ◌&&◌, ◌||◌, List, [], ◌∷◌, keep, length,
  ltb, leb, ◌==◌, if◌then◌else◌, nat_eq, text_eq,
}

pub record Window : Type 0 where
  pub started : ℕ
  pub count : ℕ

abbrev pub Windows : Type 0
Windows = List (String × Window)

pub record Limiter : Type 0 where
  pub windows : Windows

-- Reading a key that a Go map lacks gives the zero value.
unfoldable pub find : String → Windows → Window
find key [] = record { started = 0; count = 0 }
find key ((k, w) ∷ rest) = if k == key then w else find key rest

unfoldable pub put : String → Window → Windows → Windows
put key v [] = (key, v) ∷ []
put key v ((k, w) ∷ rest) = if k == key then (k, v) ∷ rest else (k, w) ∷ put key v rest

-- `now.Sub(window.started) >= duration`
abbrev pub expired : ℕ → ℕ → Window → Bool
expired now duration w = leb (w.started + duration) now

abbrev pub max_windows : ℕ
max_windows = 10000

abbrev pub live : ℕ → ℕ → String × Window → Bool
live now duration entry = not (expired now duration entry.1)

-- The sweep over the map, which runs only when it has grown large.
unfoldable pub sweep : ℕ → ℕ → Windows → Windows
sweep now duration ws = if ltb max_windows (length ws) then keep (live now duration) ws else ws

unfoldable pub new_rate_limiter : Limiter
new_rate_limiter = record { windows = [] }

pub record Decision : Type 0 where
  pub allowed : Bool
  pub retry_after : ℕ

-- The branches of `allow`, over the window that the map holds.
unfoldable pub decide : Limiter → ℕ → String → ℕ → ℕ → Window → Decision × Limiter
decide l now key limit duration window =
    if window.started == 0 || expired now duration window
    then (
      record { allowed = true; retry_after = 0 },
      record { windows = put key (record { started = now; count = 1 }) l.windows },
    )
    else if leb limit window.count
    then (record { allowed = false; retry_after = window.started + duration - now }, l)
    else (
      record { allowed = true; retry_after = 0 },
      record {
        windows =
            sweep now duration (put key (record window { count = window.count + 1 }) l.windows);
      },
    )

unfoldable pub allow : Limiter → ℕ → String → ℕ → ℕ → Decision × Limiter
unfolding decide
allow l now key limit duration = decide l now key limit duration (find key l.windows)

-- What the limiter reads of a request: its method, its path, and the client's address, which
-- `clientIP` reads off the connection and the proxy's headers.
pub record Request : Type 0 where
  pub method : String
  pub path : String
  pub client : String

abbrev pub second : ℕ
second = 1000000000

abbrev pub minute : ℕ
minute = 60000000000

abbrev is_read : String → Bool
is_read method = method == "GET" || method == "HEAD"

unfoldable pub request_limit : Request → ℕ × ℕ
request_limit r =
    if r.path == "/api/v1/auth/login"
      || r.path == "/api/v1/auth/signup"
      || r.path == "/api/v1/auth/forgot-password"
      || r.path == "/api/v1/auth/reset-password"
    then (10, minute)
    else if r.path == "/api/v1/auth/bootstrap"
    then (5, minute)
    else if not (is_read r.method)
    then (60, minute)
    else (300, minute)

unfoldable pub rate_limit_bucket : Request → String
rate_limit_bucket r =
    if starts_with r.path "/api/v1/auth/"
    then r.path
    else if is_read r.method
    then "read"
    else "write"

-- The two headers that the middleware sets, and whether the next handler runs.
pub data Outcome : Type 0 where
  forwarded : (rate_limit : ℕ) → Outcome
  too_many_requests : (rate_limit retry_after : ℕ) → Outcome

-- `max(1, int(retryAfter.Seconds()))`
unfoldable pub retry_after_header : ℕ → ℕ
retry_after_header retry = if ltb (retry / second) 1 then 1 else retry / second

abbrev pub respond : ℕ → Decision → Outcome
respond limit d =
    if d.allowed
    then forwarded limit
    else too_many_requests limit (retry_after_header d.retry_after)

abbrev pub request_key : Request → String
request_key r = Prim.Native.String.◌++◌ r.client (Prim.Native.String.◌++◌ "|" (rate_limit_bucket r))

unfoldable pub middleware : Limiter → ℕ → Request → Outcome × Limiter
middleware l now r =
    let (limit, window) = request_limit r in
    let (decision, l') = allow l now (request_key r) limit window in (respond limit decision, l')
