-- ===== src/RateLimit/Windows.antt =====
-- services/api/internal/httpapi/security.go: the map of windows under a write and under the sweep.
use xpace.Prelude.{
  ℕ, ◌≡◌, refl, ◌≢◌, ◌⊎◌, Bool, true, false, String, [], ◌∷◌, All, arith, eq_iff, keep, Bool-cases,
  length, if◌then◌else◌, ltb, ◌==◌, text_eq, inl, inr,
}
use xpace.RateLimit.{Window, Windows, find, put, expired, live, sweep, max_windows}

pub find-put :
    (key j : String) (v : Window) (ws : Windows)
    → find j (put key v ws) ≡ (if key == j then v else find j ws)
unfolding find put
find-put key j v [] = refl
find-put key j v ((k, w) ∷ ws) =
    ground (arith, eq_iff key j, eq_iff k key, eq_iff k j, find-put key j v ws)

-- No key stands in the map twice, as in every Go map.
abbrev pub HasDistinctKeys : Windows → Type 0
HasDistinctKeys [] = Unit
HasDistinctKeys ((k, w) ∷ ws) = All (λ e. e.0 ≢ k) ws × HasDistinctKeys ws

module _ (now duration : ℕ) where
  find-keep-live :
      (key : String) (ws : Windows)
      → expired now duration (find key ws) ≡ false
      → find key (keep (live now duration) ws) ≡ find key ws
  unfolding find keep
  find-keep-live key [] h = refl
  find-keep-live key ((k, w) ∷ ws) h = ground (arith, find-keep-live key ws)

  pub find-sweep_live :
      (key : String) (ws : Windows)
      → expired now duration (find key ws) ≡ false
      → find key (sweep now duration ws) ≡ find key ws
  unfolding sweep
  find-sweep_live key ws h = elim (Bool-cases (ltb max_windows (length ws))) [
    | inl big ↦ rw big (find-keep-live key ws h)
    | inr small ↦ rw small
  ]

module _ (key : String) (v : Window) where
  ne-put :
      (k : String) (ws : Windows)
      → key ≢ k
      → All (λ e. e.0 ≢ k) ws
      → All (λ e. e.0 ≢ k) (put key v ws)
  unfolding put
  ne-put k [] n h = (n, tt)
  ne-put k ((j, w) ∷ ws) n h = ground (arith, ne-put k ws n)

  pub put-HasDistinctKeys : (ws : Windows) → HasDistinctKeys ws → HasDistinctKeys (put key v ws)
  unfolding put
  put-HasDistinctKeys [] h = (tt, tt)
  put-HasDistinctKeys ((k, w) ∷ ws) h =
      ground (arith, eq_iff k key, put-HasDistinctKeys ws, ne-put k ws)

ne-keep :
    (p : String × Window → Bool) (k : String) (ws : Windows)
    → All (λ e. e.0 ≢ k) ws
    → All (λ e. e.0 ≢ k) (keep p ws)
unfolding keep
ne-keep p k [] h = tt
ne-keep p k (e ∷ ws) h = ground (arith, ne-keep p k ws)

keep-HasDistinctKeys :
    (p : String × Window → Bool) (ws : Windows) → HasDistinctKeys ws → HasDistinctKeys (keep p ws)
unfolding keep
keep-HasDistinctKeys p [] h = tt
keep-HasDistinctKeys p ((k, w) ∷ ws) h = ground (arith, keep-HasDistinctKeys p ws, ne-keep p k ws)

pub sweep-HasDistinctKeys :
    (now duration : ℕ) (ws : Windows) → HasDistinctKeys ws → HasDistinctKeys (sweep now duration ws)
unfolding sweep
sweep-HasDistinctKeys now duration ws h =
    ground (arith, keep-HasDistinctKeys (live now duration) ws h)

-- A key that does not stand in the map reads as the zero window.
find-none :
    (key : String) (ws : Windows)
    → All (λ e. e.0 ≢ key) ws
    → find key ws ≡ record { started = 0; count = 0 }
unfolding find
find-none key [] h = refl
find-none key ((k, w) ∷ ws) h = ground (arith, eq_iff k key, find-none key ws h.1)

-- A window that the sweep drops had run out: what is read afterwards is the window itself, or the
-- zero window where it had.
module _ (now duration : ℕ) (key : String) where
  find-keep :
      (ws : Windows)
      → HasDistinctKeys ws
      → find key (keep (live now duration) ws) ≡ (
          if expired now duration (find key ws)
          then record { started = 0; count = 0 }
          else find key ws)
  unfolding find keep
  find-keep [] h = ground arith
  find-keep ((k, w) ∷ ws) h = ground (
    arith,
    eq_iff k key,
    find-keep ws h.1,
    ne-keep (live now duration) k ws h.0,
    find-none key (keep (live now duration) ws),
  )

  pub find-sweep :
      (ws : Windows)
      → HasDistinctKeys ws
      → (find key (sweep now duration ws) ≡ find key ws)
        ⊎ ((expired now duration (find key ws) ≡ true)
            × (find key (sweep now duration ws) ≡ record { started = 0; count = 0 }))
  unfolding sweep
  find-sweep ws h = ground (arith, find-keep ws h)
