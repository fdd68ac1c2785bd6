-- ===== src/RateLimit/Burst.antt =====
-- services/api/internal/httpapi/security.go: how many requests of one key pass within one window,
-- whatever the other keys do meanwhile.
use Prim.Native.Nat.{min}
use text.Mathlib.TextPositions.{eq_refl}
use xpace.Prelude.{
  ℕ, suc, ◌+◌, ◌-◌, ◌≤◌, ◌<◌, ◌≡◌, ◌∙◌, ◌≢◌, true, false, ◌⊎◌, inl, inr, String, List, [], ◌∷◌, All,
  arith, eq_iff, Bool-cases, if◌then◌else◌, ltb, ◌==◌, text_eq,
}
use xpace.RateLimit.{Limiter, find, put, expired, allow}
use xpace.RateLimit.Windows.{find-put, find-sweep_live}

-- A request: when it comes, and under which key.
abbrev pub Arrival : Type 0
Arrival = ℕ × String

module _ (limit_of : String → ℕ) (duration : ℕ) where
  -- How many of the requests under `key` are admitted, of all that come.
  unfoldable pub admitted : String → Limiter → List Arrival → ℕ
  admitted key l [] = 0
  admitted key l ((t, k) ∷ rest) =
      let (decision, l') = allow l t k (limit_of k) duration in
      let later = admitted key l' rest in
      if (k == key) then (if decision.allowed then suc later else later) else later

unfoldable pub requests : String → List Arrival → ℕ
requests key [] = 0
requests key ((t, k) ∷ rest) =
    let later = requests key rest in if k == key then suc later else later

module _ (l : Limiter) (t limit duration : ℕ) where
  -- The window of a key stands as it was after a request under another key.
  find-allow_ne :
      (key k : String)
      → k ≢ key
      → expired t duration (find key l.windows) ≡ false
      → find key (allow l t k limit duration).1.windows ≡ find key l.windows
  unfolding allow
  find-allow_ne key k n h =
      let w = find k l.windows in
      let bumped = put k (record w { count = w.count + 1 }) l.windows in
      ground (
        arith,
        eq_iff k key,
        find-put k key (record { started = t; count = 1 }) l.windows,
        find-put k key (record w { count = w.count + 1 }) l.windows,
        find-sweep_live t duration key bumped,
      )

  find-allow_self :
      (key : String) (t₀ c : ℕ)
      → 0 < t₀
      → t < t₀ + duration
      → find key l.windows ≡ record { started = t₀; count = c }
      → ((allow l t key limit duration).0.allowed ≡ ltb c limit)
        × (find key (allow l t key limit duration).1.windows
            ≡ record { started = t₀; count = if ltb c limit then c + 1 else c })
  unfolding allow
  find-allow_self key t₀ c p q h =
      let bumped = put key (record { started = t₀; count = c + 1 }) l.windows in
      rw h (
        ground (
          arith,
          eq_refl key,
          h,
          find-put key key (record { started = t₀; count = c + 1 }) l.windows,
          find-sweep_live t duration key bumped,
        ))

module _ (limit_of : String → ℕ) (duration : ℕ) (key : String) (t₀ : ℕ) (pos : 0 < t₀) where
  abbrev Within : Arrival → Type 0
  Within a = a.0 < t₀ + duration

  admitted-Within :
      (arrivals : List Arrival) (l : Limiter) (c : ℕ)
      → All Within arrivals
      → c ≤ limit_of key
      → find key l.windows ≡ record { started = t₀; count = c }
      → admitted limit_of duration key l arrivals ≡ min (limit_of key - c) (requests key arrivals)
  unfolding admitted requests
  admitted-Within [] l c w b h = omega arith
  admitted-Within ((t, k) ∷ rest) l c w b h = elim (Bool-cases (k == key)) [
    | inl same ↦
        let e : k ≡ key = (eq_iff k key).0 same in
        let l' = (allow l t key (limit_of key) duration).1 in
        let (passes, stands) = find-allow_self l t (limit_of key) duration key t₀ c pos w.0 h in
        let ih = admitted-Within rest l' (if ltb c (limit_of key) then c + 1 else c) w.1 in
        rw e (rw (eq_refl key, passes) (ground (arith, ih, stands)))
    | inr other ↦
        let l' = (allow l t k (limit_of k) duration).1 in
        let ne : k ≢ key = λ e. cc ((eq_iff k key).1 e) in
        let stands = find-allow_ne l t (limit_of k) duration key k ne (rw h (ground arith)) in
        let ih = admitted-Within rest l' c w.1 b (stands ∙ h) in rw (other) ih
  ]

  -- The first request after a window ran out opens the next one.
  find-allow_open :
      (l : Limiter) (limit : ℕ)
      → ((find key l.windows).started ≡ 0) ⊎ (expired t₀ duration (find key l.windows) ≡ true)
      → ((allow l t₀ key limit duration).0.allowed ≡ true)
        × (find key (allow l t₀ key limit duration).1.windows ≡ record { started = t₀; count = 1 })
  unfolding allow
  find-allow_open l limit h =
      ground (arith, eq_refl key, find-put key key (record { started = t₀; count = 1 }) l.windows)

  -- Let a request under `key` come at a time t₀ when that key has no window, or one that ran out.
  -- Of it and the requests that follow before t₀ + duration, under any keys and with any limits for
  -- the other keys, exactly the first ones under `key` are admitted, as many as its limit allows, where
  -- all of them have that limit.
  pub admitted_burst :
      (l : Limiter) (rest : List Arrival)
      → ((find key l.windows).started ≡ 0) ⊎ (expired t₀ duration (find key l.windows) ≡ true)
      → All Within rest
      → 0 < limit_of key
      → admitted limit_of duration key l ((t₀, key) ∷ rest)
        ≡ min (limit_of key) (suc (requests key rest))
  unfolding admitted
  admitted_burst l rest h w b =
      let l' = (allow l t₀ key (limit_of key) duration).1 in
      let (passes, stands) = find-allow_open l (limit_of key) h in
      let ih = admitted-Within rest l' 1 w b stands in rw (eq_refl key, passes) (omega (arith, ih))
