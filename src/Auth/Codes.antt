-- ===== src/Auth/Codes.antt =====
-- services/api/internal/httpapi/mfa.go: how long a one-time code is good, and how often a recovery code.
use Prim.Native.Char.{code, len_utf8}
use Prim.Native.String.len
use Prim.Native.String.{◌∷◌ as put, len, char_at}
use xpace.Prelude.{
  ℕ, zero, suc, ◌+◌, ◌-◌, ◌/◌, ◌%◌, ◌≤◌, ◌<◌, ◌≡◌, ◌⊎◌, ◌∙◌, refl, ap, inl, inr, String, true,
  false, some, arith, nat_eq, text_eq, Option-cases, eq_iff, to_upper, is_space, has_space,
  trim_space-solid,
}
use xpace.Auth.Primitives.{Bytes, Crypto}
use xpace.Auth.Totp.{totp, six_digits, digit, valid_totp}

-- Two times in one period of 30 seconds give one code.
totp-period :
    (c : Crypto) (secret : String) (a b : ℕ) → a / 30 ≡ b / 30 → totp c secret a ≡ totp c secret b
unfolding totp
totp-period c secret a b h = elim (Option-cases (c.base32_decode (to_upper secret))) [
  | inl e ↦ rw e refl
  | inr (key, e) ↦ rw e (rw h refl)
]

-- Of times at most 30 seconds apart, the periods are the same or neighbours.
near :
    (made now : ℕ)
    → made ≤ now + 30
    → now ≤ made + 30
    → 30 ≤ now
    → (made / 30 ≡ (now - 30) / 30) ⊎ ((made / 30 ≡ now / 30) ⊎ (made / 30 ≡ (now + 30) / 30))
near made now h k l = ground arith

digit_below :
    (m : ℕ)
    → m < 10
    → (len_utf8 (char_at "0123456789" m) ≡ 1) × (is_space (code (char_at "0123456789" m)) ≡ false)
unfolding is_space
digit_below zero h = (refl, refl)
digit_below (suc zero) h = (refl, refl)
digit_below (suc (suc zero)) h = (refl, refl)
digit_below (suc (suc (suc zero))) h = (refl, refl)
digit_below (suc (suc (suc (suc zero)))) h = (refl, refl)
digit_below (suc (suc (suc (suc (suc zero))))) h = (refl, refl)
digit_below (suc (suc (suc (suc (suc (suc zero)))))) h = (refl, refl)
digit_below (suc (suc (suc (suc (suc (suc (suc zero))))))) h = (refl, refl)
digit_below (suc (suc (suc (suc (suc (suc (suc (suc zero)))))))) h = (refl, refl)
digit_below (suc (suc (suc (suc (suc (suc (suc (suc (suc zero))))))))) h = (refl, refl)
digit_below (suc (suc (suc (suc (suc (suc (suc (suc (suc (suc m)))))))))) h = absurd (omega arith)

digit_ok : (n : ℕ) → (len_utf8 (digit n) ≡ 1) × (is_space (code (digit n)) ≡ false)
digit_ok n = digit_below (n % 10) (omega arith)

len-put : (n : ℕ) (s : String) → len (put (digit n) s) ≡ 1 + len s
len-put n s =
    let one : len_utf8 (digit n) ≡ 1 = (digit_ok n).0 in
    Prim.Native.String.len.cons (digit n) s ∙ ap (λ k. k + len s) one

six_digits_ok : (n : ℕ) → (len (six_digits n) ≡ 6) × (has_space (six_digits n) ≡ false)
six_digits_ok n = (
  rw (len-put, len-put, len-put, len-put, len-put, len-put) refl,
  rw
      (
        (digit_ok (n / 100000)).1,
        (digit_ok (n / 10000)).1,
        (digit_ok (n / 1000)).1,
        (digit_ok (n / 100)).1,
        (digit_ok (n / 10)).1,
        (digit_ok n).1,
      )
      refl,
)

totp_ok :
    (c : Crypto) (secret : String) (at : ℕ) {key : Bytes}
    → c.base32_decode (to_upper secret) ≡ some key
    → (len (totp c secret at) ≡ 6) × (has_space (totp c secret at) ≡ false)
unfolding totp
totp_ok c secret at h = rw (totp, h) (six_digits_ok _)

-- Where the secret can be decoded, the code for a time is accepted at every time that is at most 30
-- seconds from it, on either side.
pub totp-valid_totp :
    (c : Crypto) (secret : String) (made now : ℕ) {key : Bytes}
    → c.base32_decode (to_upper secret) ≡ some key
    → made ≤ now + 30
    → now ≤ made + 30
    → 30 ≤ now
    → valid_totp c secret (totp c secret made) now ≡ true
unfolding valid_totp
totp-valid_totp c secret made now has h k l =
    let code = totp c secret made in
    let (six, solid) = totp_ok c secret made has in
    rw (trim_space-solid (totp c secret made) solid, six)
      (elim (near made now h k l) [
        | inl e ↦
            rw
              (totp-period c secret made (now - 30) e, (eq_iff (totp c secret (now - 30)) _).1 refl)
              refl
        | inr (inl e) ↦
            rw (totp-period c secret made now e, (eq_iff (totp c secret now) _).1 refl)
              (ground arith)
        | inr (inr e) ↦
            rw
              (totp-period c secret made (now + 30) e, (eq_iff (totp c secret (now + 30)) _).1 refl)
              (ground arith)
      ])
