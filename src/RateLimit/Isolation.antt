-- ===== src/RateLimit/Isolation.antt =====
-- services/api/internal/httpapi/security.go: the requests of one key and the sweep, as another key sees
-- them.
use xpace.Prelude.{
  ℕ, ◌+◌, ◌≤◌, ◌≡◌, ◌≢◌, String, true, false, arith, eq_iff, if◌then◌else◌, leb, ◌==◌, nat_eq, ◌⊎◌,
  ◌-◌, ◌||◌,
}
use xpace.RateLimit.{Window, Decision, Limiter, find, put, expired, allow}
use xpace.RateLimit.Windows.{
  HasDistinctKeys, find-put, find-sweep, put-HasDistinctKeys, sweep-HasDistinctKeys,
}

-- The map keeps its keys distinct through every request.
pub allow-HasDistinctKeys :
    (l : Limiter) (now : ℕ) (key : String) (limit duration : ℕ)
    → HasDistinctKeys l.windows
    → HasDistinctKeys (allow l now key limit duration).1.windows
unfolding allow
allow-HasDistinctKeys l now key limit duration h =
    let w = find key l.windows in
    let bumped = put key (record w { count = w.count + 1 }) l.windows in
    ground (
      arith,
      put-HasDistinctKeys key (record { started = now; count = 1 }) l.windows h,
      sweep-HasDistinctKeys now duration bumped
          (put-HasDistinctKeys key (record w { count = w.count + 1 }) l.windows h),
    )

-- What a request is answered, by the window that stands under its key.
abbrev reply : ℕ → ℕ → ℕ → Window → Decision
reply now limit duration w =
    if w.started == 0 || expired now duration w
    then record { allowed = true; retry_after = 0 }
    else if leb limit w.count
    then record { allowed = false; retry_after = w.started + duration - now }
    else record { allowed = true; retry_after = 0 }

allow-eq-reply :
    (l : Limiter) (now : ℕ) (key : String) (limit duration : ℕ)
    → (allow l now key limit duration).0 ≡ reply now limit duration (find key l.windows)
unfolding allow
allow-eq-reply l now key limit duration = ground arith

module _ (now later limit duration limit' : ℕ) (order : now ≤ later) (key j : String)
    (ne : key ≢ j) where
  find-allow :
      (l : Limiter)
      → HasDistinctKeys l.windows
      → (find j (allow l now key limit duration).1.windows ≡ find j l.windows)
        ⊎ ((expired now duration (find j l.windows) ≡ true)
            × (find j (allow l now key limit duration).1.windows
                ≡ record { started = 0; count = 0 }))
  unfolding allow
  find-allow l h =
      let w = find key l.windows in
      let v : Window = record w { count = w.count + 1 } in
      let bumped = put key v l.windows in
      ground (
        arith,
        eq_iff key j,
        find-put key j (record { started = now; count = 1 }) l.windows,
        find-put key j v l.windows,
        find-sweep now duration j bumped (put-HasDistinctKeys key v l.windows h),
      )

  -- A request under one key does not change how a later request under another key is answered, for
  -- any limits, also where it sets off the sweep: what the sweep drops had run out.
  pub allow_isolated :
      (l : Limiter)
      → HasDistinctKeys l.windows
      → (allow (allow l now key limit duration).1 later j limit' duration).0
        ≡ (allow l later j limit' duration).0
  allow_isolated l h =
      let l' = (allow l now key limit duration).1 in
      rw (allow-eq-reply l' later j limit' duration)
        (rw (allow-eq-reply l later j limit' duration) (ground (arith, find-allow l h)))
