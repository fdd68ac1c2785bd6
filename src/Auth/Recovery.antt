-- ===== src/Auth/Recovery.antt =====
-- services/api/internal/httpapi/mfa.go and auth.go: how often a recovery code signs in.
use mathlib.Core.Bool.{false≢true}
use mathlib.Core.Option
use xpace.Prelude.{
  ℕ, ◌≡◌, ◌∙◌, refl, sym, ap, inl, inr, String, true, false, ◌||◌, Option, none, some, List, [],
  ◌∷◌, arith, exists, first, first-update_self, ◌==◌, nat_eq, text_eq, Bool-cases, Option-cases,
  AtMostOne,
}
use xpace.Http.{Faults}
use xpace.Auth.{
  Tenant, Account, UserMfa, Store, Login, Draw, mfa_of, store_hashes, find_account, create_session,
  start_session, second_factor, login,
}
use xpace.Auth.Primitives.{Crypto, Environment}
use xpace.Auth.Tokens.{hash_token}
use xpace.Auth.Totp.{decrypt_mfa_secret, recovery_hash, is_time_code, spend, verify_mfa}
use xpace.Auth.SignIn.{SecondFactor, not_enabled, shown, login-Reaches, second_factor-Started}

spend-absent :
    (h : String) (hashes : List String)
    → exists (λ x. x == h) hashes ≡ false
    → spend h hashes ≡ none
unfolding spend exists
spend-absent h [] k = refl
spend-absent h (x ∷ rest) k = rw (spend-absent h rest (ground (arith, k))) (ground (arith, k))

exists-spend :
    (h : String) (hashes rest : List String)
    → spend h hashes ≡ some rest
    → AtMostOne (λ x. x == h) hashes
    → exists (λ x. x == h) rest ≡ false
unfolding spend exists
exists-spend h [] rest k one = cc
exists-spend h (x ∷ xs) rest k one = elim (Bool-cases (x == h)) [
  | inl e ↦
      let same : some xs ≡ some rest = rw e at k in let is : xs ≡ rest = cc in rw (sym is) (one.0 e)
  | inr e ↦ elim (Option-cases (spend h xs)) [
    | inl f ↦ let refused : none ≡ some rest = rw (e, f) at k in cc
    | inr (ys, f) ↦
        let same : some (x ∷ ys) ≡ some rest = rw (e, f) at k in
        let is : x ∷ ys ≡ rest = cc in rw (sym is) (rw (e, exists-spend h xs ys f one.1) refl)
  ]
]

-- Spending a hash that stands once leaves nothing to spend.
pub spend_once :
    (h : String) (hashes rest : List String)
    → spend h hashes ≡ some rest
    → AtMostOne (λ x. x == h) hashes
    → spend h rest ≡ none
spend_once h hashes rest k one = spend-absent h rest (exists-spend h hashes rest k one)

-- The tables that starting a session leaves alone.
record SameRows (s t : Store) : Type 0 where
  pub user_mfa : t.user_mfa ≡ s.user_mfa
  pub accounts : t.accounts ≡ s.accounts
  pub tenants : t.tenants ≡ s.tenants

SameRows-same : {s t : Store} → t ≡ s → SameRows s t
SameRows-same h = record {
  user_mfa = ap (λ x. x.user_mfa) h;
  accounts = ap (λ x. x.accounts) h;
  tenants = ap (λ x. x.tenants) h;
}

start_session-SameRows :
    (c : Crypto) (env : Environment) (down : Faults) (s : Store) (now : ℕ) (draw : Draw)
    (u : Account)
    → SameRows s (start_session c env down s now draw u).1
unfolding start_session create_session
start_session-SameRows c env down s now draw u = elim (Option-cases draw.token) [
  | inl e ↦ rw (e, start_session, create_session) (SameRows-same refl)
  | inr (token, e) ↦
      elim (Bool-cases
        (down "insert session" || exists (λ x. x.token_hash == hash_token c token) s.sessions)) [
          | inl f ↦ rw (e, start_session, create_session, f) (SameRows-same refl)
          | inr f ↦
              rw (e, start_session, create_session, f)
                (record { user_mfa = refl; accounts = refl; tenants = refl })
        ]
]

same_second :
    {t t' : Tenant} {u u' : Account}
    → ◌≡◌ {A = Option (Tenant × Account)} (some (t, u)) (some (t', u'))
    → u ≡ u'
same_second h = cc

find_account-same :
    (s t : Store) (input : Login)
    → t.accounts ≡ s.accounts
    → t.tenants ≡ s.tenants
    → find_account t input ≡ find_account s input
unfolding find_account
find_account-same s t input a b = rw (find_account, a, b) refl

module _ (c : Crypto) (env : Environment) (down down' : Faults) (s : Store) (now later : ℕ)
    (draw draw' : Draw) (input input' : Login) where
  -- The second factor that the next attempt meets.
  no_factor :
      (m : UserMfa) (remaining : List String)
      → m.enabled ≡ true
      → is_time_code c (decrypt_mfa_secret c env m.secret_encrypted) input'.totp_code later ≡ false
      → spend (recovery_hash c input'.totp_code) remaining ≡ none
      → SecondFactor c env later input'.totp_code (some (record m { recovery_hashes = remaining }))
      → ⊥
  unfolding verify_mfa
  no_factor m remaining on time gone f = elim f [
    | not_enabled x off ↦ false≢true (sym off ∙ on)
    | shown x rest v ↦ let refused : none ≡ some rest = rw (verify_mfa, time, gone) at v in cc
  ]

  -- The row of the second factor, and the account, after a recovery code signed in.
  record Spent (u : Account) (m : UserMfa) (t : Store) : Type 0 where
    pub remaining : List String
    pub is_gone : spend (recovery_hash c input.totp_code) m.recovery_hashes ≡ some remaining
    pub row : first (mfa_of u) t.user_mfa ≡ some (record m { recovery_hashes = remaining })
    pub accounts : t.accounts ≡ s.accounts
    pub tenants : t.tenants ≡ s.tenants

  second_factor-Spent :
      (u : Account) (m : UserMfa) (remaining : List String)
      → first (mfa_of u) s.user_mfa ≡ some m
      → m.enabled ≡ true
      → is_time_code c (decrypt_mfa_secret c env m.secret_encrypted) input.totp_code now ≡ false
      → down "update recovery" ≡ false
      → verify_mfa c env now m.secret_encrypted m.recovery_hashes input.totp_code ≡ some remaining
      → Spent u m (second_factor c env down s now draw u input (some m)).1
  unfolding second_factor verify_mfa
  second_factor-Spent u m remaining here on time up v =
      let spent : UserMfa → UserMfa = λ x. record x { recovery_hashes = remaining } in
      let rows = start_session-SameRows c env down (store_hashes down u remaining s) now draw u in
      let stored = rw up at rows in
      rw (second_factor, on, v, up)
        (record {
          remaining = remaining;
          is_gone = rw (verify_mfa, time) at v;
          row = rw (stored.user_mfa) (
              first-update_self (mfa_of u) spent s.user_mfa (λ x h. h)
              ∙ ap (Option.map spent) here
              ∙ ap (λ e. some (record m { recovery_hashes = remaining; enabled = e })) on);
          accounts = stored.accounts;
          tenants = stored.tenants;
        })

  login-Spent :
      (t : Tenant) (u : Account) (m : UserMfa) (value : String)
      → find_account s input ≡ some (t, u)
      → first (mfa_of u) s.user_mfa ≡ some m
      → m.enabled ≡ true
      → is_time_code c (decrypt_mfa_secret c env m.secret_encrypted) input.totp_code now ≡ false
      → down "update recovery" ≡ false
      → (login c env down s now draw input).0.cookie ≡ some value
      → Spent u m (login c env down s now draw input).1
  login-Spent t u m value found here on time up h =
      let (t1, u1, k) = login-Reaches c env down s now draw input value h in
      let same : some (t1, u1) ≡ some (t, u) = sym k.is_found ∙ found in
      let is_account : u1 ≡ u = cc in
      let steps = rw (is_account, here) at k.steps in
      let (factor, started) =
        second_factor-Started c env down s now draw input value u (some m) (rw steps at h) in
      rw steps (elim factor [
        | not_enabled x off ↦ absurd (false≢true (sym off ∙ on))
        | shown x remaining v ↦ second_factor-Spent u m remaining here on time up v
      ])

  -- A recovery code, where it is no one-time code at either time and its hash stands once, signs an
  -- account in once: after it did, and the spent hash was stored, it sets no cookie again.
  pub recovery_code_once :
      (t t' : Tenant) (u : Account) (m : UserMfa) (value : String)
      → find_account s input ≡ some (t, u)
      → find_account s input' ≡ some (t', u)
      → first (mfa_of u) s.user_mfa ≡ some m
      → m.enabled ≡ true
      → is_time_code c (decrypt_mfa_secret c env m.secret_encrypted) input.totp_code now ≡ false
      → is_time_code c (decrypt_mfa_secret c env m.secret_encrypted) input'.totp_code later ≡ false
      → recovery_hash c input'.totp_code ≡ recovery_hash c input.totp_code
      → AtMostOne (λ h. h == recovery_hash c input.totp_code) m.recovery_hashes
      → down "update recovery" ≡ false
      → (login c env down s now draw input).0.cookie ≡ some value
      → (login c env down' (login c env down s now draw input).1 later draw' input').0.cookie ≡ none
  recovery_code_once t t' u m value found found' here on time time' same once up h =
      let k = login-Spent t u m value found here on time up h in
      let after = (login c env down s now draw input).1 in
      elim (Option-cases (login c env down' after later draw' input').0.cookie) [
        | inl none_set ↦ none_set
        | inr (value', h') ↦
            let (t2, u2, j) = login-Reaches c env down' after later draw' input' value' h' in
            let is_account : u2 ≡ u =
              same_second
                (sym j.is_found ∙ find_account-same s after input' k.accounts k.tenants ∙ found') in
            let steps = rw (is_account, k.row) at j.steps in
            let (factor, started) =
              second_factor-Started c env down' after later draw' input' value' u
                (some (record m { recovery_hashes = k.remaining })) (rw steps at h') in
            absurd (
              no_factor m k.remaining on time'
                (rw same (spend_once _ m.recovery_hashes k.remaining k.is_gone once)) factor)
      ]
