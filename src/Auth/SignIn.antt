-- ===== src/Auth/SignIn.antt =====
-- services/api/internal/httpapi/auth.go: what a caller who was signed in has shown, and that the
-- cookie then works.
use xpace.Prelude.{
  ℕ, ◌≡◌, ◌⊎◌, refl, ap, inl, inr, String, Bool, true, false, not, ◌&&◌, Option, none, some, List,
  [], ◌∷◌, ◌++◌, arith, first, exists, ◌==◌, nat_eq, text_eq, Bool-cases, Option-cases,
}
use xpace.Http.{Faults, is_active}
use xpace.Auth.{
  Tenant, Account, UserMfa, Store, Answer, Login, Draw, is_super_admin, mfa_of, is_right,
  store_hashes, find_account, new_session, create_session, start_session, second_factor,
  login_account, login,
}
use xpace.Auth.Primitives.{Crypto, Environment}
use xpace.Auth.Tokens.{hash_token, signed_session_token}
use xpace.Auth.Totp.{verify_mfa}
use xpace.Auth.Passwords.{verify_password}

-- The second factor that an account asks for, and that was shown.
pub data SecondFactor (c : Crypto) (env : Environment) (now : ℕ) (code : String)
    : Option UserMfa → Type 0 where
  no_enrolment : SecondFactor c env now code none
  not_enabled : (m : UserMfa) → m.enabled ≡ false → SecondFactor c env now code (some m)
  shown :
      (m : UserMfa) (remaining : List String)
      → verify_mfa c env now m.secret_encrypted m.recovery_hashes code ≡ some remaining
      → SecondFactor c env now code (some m)

pub record Started (c : Crypto) (env : Environment) (s : Store) (now : ℕ) (draw : Draw) (user : ℕ)
    (value : String) (t : Store) : Type 0 where
  pub token : String
  pub drawn : draw.token ≡ some token
  pub is_fresh : exists (λ x. x.token_hash == hash_token c token) s.sessions ≡ false
  pub is_signed : value ≡ signed_session_token c env token
  pub sessions : t.sessions ≡ s.sessions ++ new_session c now draw user token ∷ []
  pub accounts : t.accounts ≡ s.accounts
  pub tenants : t.tenants ≡ s.tenants

pub record SignedIn (c : Crypto) (env : Environment) (s : Store) (now : ℕ) (draw : Draw)
    (input : Login) (value : String) (t : Store) : Type 0 where
  pub tenant : Tenant
  pub account : Account
  pub is_found : find_account s input ≡ some (tenant, account)
  pub is_active_account : is_active account.status ≡ true
  pub password : verify_password c input.password account.password_hash ≡ some true
  pub is_open : (tenant.suspended ≡ false) ⊎ (is_super_admin account.role ≡ true)
  pub factor : SecondFactor c env now input.totp_code (first (mfa_of account) s.user_mfa)
  pub started : Started c env s now draw account.id value t

is_right-some : (o : Option Bool) → is_right o ≡ true → o ≡ some true
is_right-some none h = cc
is_right-some (some b) h = ap some h

start_session-Started :
    (c : Crypto) (env : Environment) (down : Faults) (s : Store) (now : ℕ) (draw : Draw)
    (u : Account) (value : String)
    → (start_session c env down s now draw u).0.cookie ≡ some value
    → Started c env s now draw u.id value (start_session c env down s now draw u).1
unfolding start_session create_session
start_session-Started c env down s now draw u value h = elim (Option-cases draw.token) [
  | inl e ↦ let refused : none ≡ some value = rw e at h in cc
  | inr (token, e) ↦
      let taken : Bool = exists (λ x. x.token_hash == hash_token c token) s.sessions in
      elim (Bool-cases (down "insert session")) [
        | inl f ↦
            let refused : none ≡ some value = rw (e, start_session, create_session, f) at h in cc
        | inr f ↦ elim (Bool-cases taken) [
          | inl g ↦
              let refused : none ≡ some value = rw (e, start_session, create_session, f, g) at h in
              cc
          | inr g ↦
              let signed : some (signed_session_token c env token) ≡ some value =
                rw (e, start_session, create_session, f, g) at h in
              rw (e, start_session, create_session, f, g)
                (record {
                  token = token;
                  drawn = refl;
                  is_fresh = g;
                  is_signed = cc;
                  sessions = refl;
                  accounts = refl;
                  tenants = refl;
                })
        ]
      ]
]

module _ (c : Crypto) (env : Environment) (down : Faults) (s : Store) (now : ℕ) (draw : Draw)
    (input : Login) (value : String) where
  Started-store_hashes :
      (u : Account) (hashes : List String) (t : Store)
      → Started c env (store_hashes down u hashes s) now draw u.id value t
      → Started c env s now draw u.id value t
  Started-store_hashes u hashes t k = elim (Bool-cases (down "update recovery")) [
    | inl e ↦ rw e at k
    | inr e ↦
        let j = rw e at k in
        record {
          token = j.token;
          drawn = j.drawn;
          is_fresh = j.is_fresh;
          is_signed = j.is_signed;
          sessions = j.sessions;
          accounts = j.accounts;
          tenants = j.tenants;
        }
  ]

  pub second_factor-Started :
      (u : Account) (m : Option UserMfa)
      → (second_factor c env down s now draw u input m).0.cookie ≡ some value
      → SecondFactor c env now input.totp_code m
        × Started c env s now draw u.id value (second_factor c env down s now draw u input m).1
  unfolding second_factor
  second_factor-Started u none h =
      (no_enrolment, start_session-Started c env down s now draw u value h)
  second_factor-Started u (some m) h = elim (Bool-cases m.enabled) [
    | inr e ↦
        (not_enabled m e, rw e (start_session-Started c env down s now draw u value (rw e at h)))
    | inl e ↦
        elim (Option-cases
          (verify_mfa c env now m.secret_encrypted m.recovery_hashes input.totp_code)) [
            | inl f ↦ let refused : none ≡ some value = rw (e, f) at h in cc
            | inr (remaining, f) ↦
                let k =
                  start_session-Started c env down (store_hashes down u remaining s) now draw u
                    value (rw (e, f) at h) in
                (shown m remaining f, rw (e, f) (Started-store_hashes u remaining _ k))
          ]
  ]

  -- The checks before the second factor, and that `login` goes on to it.
  pub record Reaches (t : Tenant) (u : Account) (r : Answer × Store) : Type 0 where
    pub is_found : find_account s input ≡ some (t, u)
    pub is_active_account : is_active u.status ≡ true
    pub password : verify_password c input.password u.password_hash ≡ some true
    pub is_open : (t.suspended ≡ false) ⊎ (is_super_admin u.role ≡ true)
    pub steps : r ≡ second_factor c env down s now draw u input (first (mfa_of u) s.user_mfa)

  login_account-Reaches :
      (t : Tenant) (u : Account)
      → find_account s input ≡ some (t, u)
      → (login_account c env down s now draw input t u).0.cookie ≡ some value
      → Reaches t u (login_account c env down s now draw input t u)
  unfolding login_account
  login_account-Reaches t u found h = elim (Bool-cases (is_active u.status)) [
    | inr e ↦ let refused : none ≡ some value = rw e at h in cc
    | inl e ↦ elim (Bool-cases (is_right (verify_password c input.password u.password_hash))) [
      | inr f ↦ let refused : none ≡ some value = rw (e, f) at h in cc
      | inl f ↦ elim (Bool-cases (t.suspended && not (is_super_admin u.role))) [
        | inl g ↦ let refused : none ≡ some value = rw (e, f, g) at h in cc
        | inr g ↦ record {
          is_found = found;
          is_active_account = e;
          password = is_right-some _ f;
          is_open = ground (arith, g);
          steps = rw (e, f, g) refl;
        }
      ]
    ]
  ]

  pub login-Reaches :
      (login c env down s now draw input).0.cookie ≡ some value
      → (t : Tenant) × (u : Account) × Reaches t u (login c env down s now draw input)
  unfolding login
  login-Reaches h = elim (Bool-cases (down "select account")) [
    | inl e ↦ let refused : none ≡ some value = rw e at h in cc
    | inr e ↦ elim (Option-cases (find_account s input)) [
      | inl f ↦ let refused : none ≡ some value = rw (e, f) at h in cc
      | inr ((t, u), f) ↦ (t, u, rw (e, f) (login_account-Reaches t u f (rw (e, f) at h)))
    ]
  ]

  -- If signing in sets a cookie, the account was found and is active, the password was verified, the
  -- workspace is not suspended or the account is a SUPER_ADMIN, and where the account has a second
  -- factor enabled its code was valid; the cookie is the signed token of the one session added.
  pub login_sound :
      (login c env down s now draw input).0.cookie ≡ some value
      → SignedIn c env s now draw input value (login c env down s now draw input).1
  login_sound h =
      let (t, u, k) = login-Reaches h in
      let (factor, started) =
        second_factor-Started u (first (mfa_of u) s.user_mfa) (rw k.steps at h) in
      record {
        tenant = t;
        account = u;
        is_found = k.is_found;
        is_active_account = k.is_active_account;
        password = k.password;
        is_open = k.is_open;
        factor = factor;
        started = rw k.steps started;
      }
