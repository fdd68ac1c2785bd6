-- ===== src/Auth/Hashing.antt =====
-- services/api/internal/auth/password.go: a hash that was made is verified.
use Prim.Native.Char.{Char, code}
use Prim.Native.String.{[] as empty_text, ◌∷◌ as put, ◌++◌, len}
use text.Mathlib.TextLemmas.{nil-append, cons-append}
use xpace.Prelude.{
  ℕ, ◌≡◌, ◌∙◌, refl, sym, ap, inl, inr, String, true, false, none, some, [], ◌∷◌, length, ltb, ◌==◌,
  nat_eq, text_eq, Bool-cases, Option-cases, nat_beq_iff,
}
use xpace.Auth.Primitives.{Bytes, Crypto}
use xpace.Auth.Tokens.{cut}
use xpace.Auth.Passwords.{
  split, phc, parameters, hash_password, verify_password, verify_parts, same_bytes, argon_memory,
  argon_time, argon_threads, argon_key_size,
}

cut_absent :
    (at c : Char) (s : String)
    → cut at (put c s) ≡ none
    → ((code c == code at) ≡ false) × (cut at s ≡ none)
unfolding cut
cut_absent at c s h = elim (Bool-cases (code c == code at)) [
  | inl e ↦ let refused : some ("", s) ≡ none = rw e at h in cc
  | inr e ↦ elim (Option-cases (cut at s)) [
    | inl f ↦ (e, f)
    | inr ((a, b), f) ↦ let refused : some (put c a, b) ≡ none = rw (e, f) at h in cc
  ]
]

split-last : (at : Char) (s : String) → cut at s ≡ none → split at s ≡ s ∷ []
unfolding split
split-last at empty_text h = refl
split-last at (put c s) h =
    let (other, later) = cut_absent at c s h in rw (other, split-last at s later) refl

split-append :
    (at : Char) (s t : String) → cut at s ≡ none → split at (s ++ put at t) ≡ s ∷ split at t
unfolding split
split-append at empty_text t h =
    rw (nil-append (put at t), (nat_beq_iff (code at) (code at)).1 refl) refl
split-append at (put c s) t h =
    let (other, later) = cut_absent at c s h in
    rw (cons-append c s (put at t), other, split-append at s t later) refl

same_bytes-same : (b : Bytes) → same_bytes b b ≡ true
same_bytes-same [] = refl
same_bytes-same (x ∷ b) = rw ((nat_beq_iff x x).1 refl) (same_bytes-same b)

-- What Go's packages document of base64 and of reading a format's numbers back, and argon2 of the
-- size of a key.
pub record IsCodec (c : Crypto) : Type 0 where
  pub decode-encode : (b : Bytes) → c.raw_std_decode (c.raw_std_encode b) ≡ some b
  pub no_dollar : (b : Bytes) → cut "$" (c.raw_std_encode b) ≡ none
  pub scan : c.scan_parameters parameters ≡ some (argon_memory, argon_time, argon_threads)
  pub size :
      (password : String) (salt : Bytes) (time memory threads size : ℕ)
      → length (c.id_key password salt time memory threads size) ≡ size

dollar-append : (s : String) → "$" ++ s ≡ put "$" s
dollar-append s = cons-append "$" "" s ∙ ap (put "$") (nil-append s)

split-field :
    (f rest : String) → cut "$" f ≡ none → split "$" (f ++ ("$" ++ rest)) ≡ f ∷ split "$" rest
split-field f rest h = rw (dollar-append rest) (split-append "$" f rest h)

split-phc :
    (kind version costs salt key : String)
    → cut "$" kind ≡ none
    → cut "$" version ≡ none
    → cut "$" costs ≡ none
    → cut "$" salt ≡ none
    → cut "$" key ≡ none
    → split "$" (phc kind version costs salt key) ≡ "" ∷ kind ∷ version ∷ costs ∷ salt ∷ key ∷ []
unfolding split
split-phc kind version costs salt key a b p q r = rw dollar-append (
    ap (λ l. "" ∷ l)
      (rw
        (
          split-field kind _ a,
          split-field version _ b,
          split-field costs _ p,
          split-field salt key q,
          split-last "$" key r,
        )
        refl))

-- A hash that was made of a password is verified with this password.
pub verify-hash_password :
    (c : Crypto) (salt : Bytes) (password hash : String)
    → IsCodec c
    → hash_password c (some salt) password ≡ some hash
    → verify_password c password hash ≡ some true
unfolding hash_password verify_password verify_parts cut
verify-hash_password c salt password hash k h =
    let drawn = c.id_key password salt argon_time argon_memory argon_threads argon_key_size in
    let text = phc "argon2id" "v=19" parameters (c.raw_std_encode salt) (c.raw_std_encode drawn) in
    elim (Bool-cases (ltb (len password) 8)) [
      | inl e ↦ let refused : none ≡ some hash = rw e at h in cc
      | inr e ↦
          let made : some text ≡ some hash = rw e at h in
          let is : text ≡ hash = cc in
          rw
            (
              sym is,
              split-phc "argon2id" "v=19" parameters (c.raw_std_encode salt)
                  (c.raw_std_encode drawn) refl refl refl (k.no_dollar salt) (k.no_dollar drawn),
              k.scan,
              k.decode-encode,
              k.decode-encode,
              k.size,
            )
            (ap some (same_bytes-same drawn))
    ]
