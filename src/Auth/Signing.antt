-- ===== src/Auth/Signing.antt =====
-- services/api/internal/httpapi/token_signing.go: which cookies are accepted.
use Prim.Native.Char.{Char, code}
use Prim.Native.String.{[], ◌∷◌, ◌++◌}
use text.Mathlib.TextLemmas.{nil-append, cons-append}
use text.Mathlib.TextEquality.{codes_equal}
use xpace.Prelude.{
  ◌≡◌, ◌↔◌, ◌⊎◌, ◌∙◌, refl, sym, ap, inl, inr, String, true, false, ◌||◌, Option, none, some, arith,
  ◌==◌, nat_eq, text_eq, if◌then◌else◌, is_empty, Bool-cases, Option-cases, eq_iff,
}
use xpace.Auth.Primitives.{Crypto, Environment}
use xpace.Auth.Tokens.{
  cut, put_first, session_signature, signed_session_token, verifies, verify_signed_session_token,
  IsToken,
}

put_first-none : (c : Char) (o : Option (String × String)) → put_first c o ≡ none → o ≡ none
put_first-none c none h = refl
put_first-none c (some (a, b)) h = cc

cut-append : (at : Char) (s t : String) → cut at s ≡ none → cut at (s ++ (at ∷ t)) ≡ some (s, t)
unfolding cut
cut-append at [] t h = rw (nil-append (at ∷ t)) (ground arith)
cut-append at (c ∷ s) t h = rw (cons-append c s (at ∷ t)) (elim (Bool-cases (code c == code at)) [
  | inl e ↦ let none_cut : some ("", s) ≡ none = rw e at h in cc
  | inr e ↦ rw e (rw (cut-append at s t (put_first-none c (cut at s) (rw e at h))) refl)
])

same_char : (c d : Char) → (code c == code d) ≡ true → c ≡ d
same_char c d e = codes_equal c d (ground (arith, e))

put_first-some :
    (c : Char) (o : Option (String × String)) {a b : String}
    → put_first c o ≡ some (a, b)
    → (a' : String) × (o ≡ some (a', b)) × (a ≡ c ∷ a')
put_first-some c none h = cc
put_first-some c (some (a', b')) h = (a', cc, cc)

pub cut_sound :
    (at : Char) (s : String) {a b : String}
    → cut at s ≡ some (a, b)
    → (s ≡ a ++ (at ∷ b)) × (cut at a ≡ none)
unfolding cut
cut_sound at [] h = cc
cut_sound at (c ∷ s) {a = a} {b = b} h = elim (Bool-cases (code c == code at)) [
  | inl e ↦
      let same : some ("", s) ≡ some (a, b) = rw e at h in
      let empty : "" ≡ a = cc in
      rw (sym empty)
        (rw (nil-append (at ∷ b)) (let rest : s ≡ b = cc in rw (same_char c at e, rest) refl), refl)
  | inr e ↦
      let (a', k, q) = put_first-some c (cut at s) (rw e at h) in
      let (whole, no_dot) = cut_sound at s k in
      rw q (rw (cons-append c a' (at ∷ b)) (ap (λ x. c ∷ x) whole), rw (e, no_dot) refl)
]

dot-append : (s : String) → "." ++ s ≡ "." ∷ s
dot-append s = cons-append "." "" s ∙ ap (λ t. "." ∷ t) (nil-append s)

-- What an accepted value is made of.
pub record Accepted (c : Crypto) (env : Environment) (value token : String) : Type 0 where
  pub signature : String
  pub is_value : value ≡ token ++ ("." ++ signature)
  pub is_token : IsToken token
  pub is_signed : is_empty signature ≡ false
  pub under_a_key :
      (verifies c token signature env.signing_key ≡ true)
      ⊎ (verifies c token signature env.previous_key ≡ true)

module _ (c : Crypto) (env : Environment) where
  accepts :
      (value token signature : String)
      → cut "." value ≡ some (token, signature)
      → is_empty token ≡ false
      → is_empty signature ≡ false
      → (verifies c token signature env.signing_key ≡ true)
        ⊎ (verifies c token signature env.previous_key ≡ true)
      → verify_signed_session_token c env value ≡ some token
  unfolding verify_signed_session_token
  accepts value token signature h t s (inl k) = rw (h, t, s, k) refl
  accepts value token signature h t s (inr k) = rw (h, t, s, k) (ground arith)

  reads :
      (t signature token : String)
      → (if is_empty t || is_empty signature
          then none
          else if verifies c t signature env.signing_key
          then some t
          else if verifies c t signature env.previous_key
          then some t
          else none)
        ≡ some token
      → (t ≡ token)
        × (is_empty t ≡ false)
        × (is_empty signature ≡ false)
        × ((verifies c t signature env.signing_key ≡ true)
            ⊎ (verifies c t signature env.previous_key ≡ true))
  reads t signature token h = ground arith

  accepted :
      (value token : String)
      → verify_signed_session_token c env value ≡ some token
      → Accepted c env value token
  unfolding verify_signed_session_token
  accepted value token h = elim (Option-cases (cut "." value)) [
    | inl k ↦ let refused : none ≡ some token = rw k at h in cc
    | inr ((t, signature), k) ↦
        let (same, full, signed, key) = reads t signature token (rw k at h) in
        let (whole, no_dot) = cut_sound "." value k in
        record {
          signature = signature;
          is_value = rw (dot-append signature, sym same) whole;
          is_token = rw (sym same) (no_dot, full);
          is_signed = signed;
          under_a_key = rw (sym same) key;
        }
  ]

  -- A cookie's value is accepted for a token exactly when it is this token, a dot and the token's
  -- signature under one of the two keys, where the token is not empty and has no dot, and neither
  -- the signature nor the key is empty.
  pub verify_signed_session_token_iff :
      (value token : String)
      → (verify_signed_session_token c env value ≡ some token) ↔ Accepted c env value token
  verify_signed_session_token_iff value token = (
    accepted value token,
    λ k.
        accepts value token k.signature
          (rw (k.is_value, dot-append k.signature) (cut-append "." token k.signature k.is_token.0))
          k.is_token.1 k.is_signed k.under_a_key,
  )

-- A token signed under a key is read back wherever this key is the current one or the previous one,
-- if neither the key nor the signature is empty.
pub verify-signed_session_token :
    (c : Crypto) (old new : Environment) (token : String)
    → IsToken token
    → is_empty old.signing_key ≡ false
    → is_empty (session_signature c token old.signing_key) ≡ false
    → (new.signing_key ≡ old.signing_key) ⊎ (new.previous_key ≡ old.signing_key)
    → verify_signed_session_token c new (signed_session_token c old token) ≡ some token
unfolding signed_session_token verifies
verify-signed_session_token c old new token t k s h =
    accepts c new _ token (session_signature c token old.signing_key)
      (rw (dot-append (session_signature c token old.signing_key))
        (cut-append "." token (session_signature c token old.signing_key) t.0))
      t.1 s (elim h [ inl e ↦ inl (rw e own) | inr e ↦ inr (rw e own) ])
  where
    own : verifies c token (session_signature c token old.signing_key) old.signing_key ≡ true
    own = rw (k, (eq_iff (session_signature c token old.signing_key) _).1 refl) refl
