-- ===== src/Auth/Ended.antt =====
-- services/api/internal/httpapi/auth.go and sessions.go: that the operations keep ended sessions ended.
use mathlib.Core.Bool.{false≢true}
use xpace.Prelude.{
  ℕ, ◌≡◌, ◌∙◌, refl, sym, ap, inl, inr, String, Bool, true, false, not, ◌&&◌, Option, none, some,
  List, [], ◌∷◌, ◌++◌, arith, exists, first, update_where, ◌==◌, nat_eq, text_eq, Bool-cases,
  Option-cases, exists-append, exists-update, eq_iff,
}
use xpace.Http.{Faults, is_active, CurrentUser}
use xpace.Auth.{
  Tenant, Account, Session, Store, Login, Draw, UserMfa, login, new_session, has_slug, is_identity,
  audit_failed_login, create_session, start_session, second_factor, store_hashes, login_account,
  find_account, mfa_of, is_right, is_super_admin,
}
use xpace.Auth.Primitives.{Crypto, Environment}
use xpace.Auth.Tokens.{hash_token}
use xpace.Auth.Totp.{verify_mfa}
use xpace.Auth.Passwords.{verify_password}
use xpace.Auth.Sessions.{
  is_live, session_user, require_hash, cookie_hash, require_session, logout, is_unrevoked_token,
  revoke, revoke_where, revoke_other_sessions, revoke_session_device, touch, is_stale,
  audit_rejected_session, is_owner, is_device, logout_hash,
}

-- A session has this hash, and every one that has it was ended.
abbrev pub IsEnded : String → List Session → Type 0
IsEnded hash xs =
    (exists (λ x. x.token_hash == hash) xs ≡ true) × (exists (is_unrevoked_token hash) xs ≡ false)

pub exists_live_of_ended :
    (now : ℕ) (hash : String) (xs : List Session)
    → exists (is_unrevoked_token hash) xs ≡ false
    → exists (is_live now hash) xs ≡ false
unfolding exists
exists_live_of_ended now hash [] h = refl
exists_live_of_ended now hash (x ∷ xs) h = ground (arith, exists_live_of_ended now hash xs)

-- An UPDATE that keeps hashes, and ends sessions or leaves them as they are, keeps them ended.
unrevoked-update :
    (p : Session → Bool) (f : Session → Session) (hash : String) (xs : List Session)
    → ((x : Session) → is_unrevoked_token hash x ≡ false → is_unrevoked_token hash (f x) ≡ false)
    → exists (is_unrevoked_token hash) xs ≡ false
    → exists (is_unrevoked_token hash) (update_where p f xs) ≡ false
unfolding exists update_where
unrevoked-update p f hash [] l h = h
unrevoked-update p f hash (x ∷ xs) l h =
    let rest = unrevoked-update p f hash xs l (ground (arith, h)) in
    elim (Bool-cases (p x)) [
      | inl e ↦ rw (e, l x (ground (arith, h))) rest
      | inr e ↦ rw e (ground (arith, h, rest))
    ]

IsEnded-update :
    (p : Session → Bool) (f : Session → Session) (hash : String) (xs : List Session)
    → ((x : Session) → (f x).token_hash ≡ x.token_hash)
    → ((x : Session) → is_unrevoked_token hash x ≡ false → is_unrevoked_token hash (f x) ≡ false)
    → IsEnded hash xs
    → IsEnded hash (update_where p f xs)
IsEnded-update p f hash xs k l h = (
  exists-update (λ x. x.token_hash == hash) p f xs (λ x. ap (λ t. t == hash) (k x)) ∙ h.0,
  unrevoked-update p f hash xs l h.1,
)

IsEnded-append :
    (hash : String) (xs : List Session) (y : Session)
    → exists (λ x. x.token_hash == y.token_hash) xs ≡ false
    → IsEnded hash xs
    → IsEnded hash (xs ++ y ∷ [])
IsEnded-append hash xs y h k = elim (Bool-cases (y.token_hash == hash)) [
  | inl e ↦
      let same : y.token_hash ≡ hash = (eq_iff y.token_hash hash).0 e in
      absurd (false≢true (sym (rw same at h) ∙ k.0))
  | inr e ↦ (
    exists-append (λ x. x.token_hash == hash) xs y ∙ rw k.0 refl,
    exists-append (is_unrevoked_token hash) xs y ∙ rw (k.1, e) refl,
  )
]

module _ (hash : String) where
  -- It holds of the tables that every operation leaves.
  abbrev pub Ended : Store → Type 0
  Ended s = IsEnded hash s.sessions

  audit_failed_login-Ended :
      (down : Faults) (s : Store) (input : Login)
      → Ended s
      → Ended (audit_failed_login down s input)
  unfolding audit_failed_login
  audit_failed_login-Ended down s input h = elim (Bool-cases (down "select failed")) [
    | inl e ↦ rw e h
    | inr e ↦ elim (Option-cases (first (has_slug input.tenant) s.tenants)) [
      | inl f ↦ rw (e, f) h
      | inr (t, f) ↦ elim (Option-cases (first (is_identity t input.identity) s.accounts)) [
        | inl g ↦ rw (e, audit_failed_login, f, g) h
        | inr (u, g) ↦ rw (e, audit_failed_login, f, g) h
      ]
    ]
  ]

  start_session-Ended :
      (c : Crypto) (env : Environment) (down : Faults) (s : Store) (now : ℕ) (draw : Draw)
      (u : Account)
      → Ended s
      → Ended (start_session c env down s now draw u).1
  unfolding start_session create_session
  start_session-Ended c env down s now draw u h = elim (Option-cases draw.token) [
    | inl e ↦ rw (e, start_session, create_session) h
    | inr (token, e) ↦
        let taken : Bool = exists (λ x. x.token_hash == hash_token c token) s.sessions in
        elim (Bool-cases (down "insert session")) [
          | inl f ↦ rw (e, start_session, create_session, f) h
          | inr f ↦ elim (Bool-cases taken) [
            | inl g ↦ rw (e, start_session, create_session, f, g) h
            | inr g ↦
                rw (e, start_session, create_session, f, g)
                  (IsEnded-append hash s.sessions (new_session c now draw u.id token) g h)
          ]
        ]
  ]

  second_factor-Ended :
      (c : Crypto) (env : Environment) (down : Faults) (s : Store) (now : ℕ) (draw : Draw)
      (u : Account) (input : Login) (m : Option UserMfa)
      → Ended s
      → Ended (second_factor c env down s now draw u input m).1
  unfolding second_factor
  second_factor-Ended c env down s now draw u input none h =
      start_session-Ended c env down s now draw u h
  second_factor-Ended c env down s now draw u input (some m) h = elim (Bool-cases m.enabled) [
    | inr e ↦ rw e (start_session-Ended c env down s now draw u h)
    | inl e ↦
        elim (Option-cases
          (verify_mfa c env now m.secret_encrypted m.recovery_hashes input.totp_code)) [
            | inl f ↦ rw (e, f) h
            | inr (remaining, f) ↦
                rw (e, f)
                  (elim (Bool-cases (down "update recovery")) [
                    | inl g ↦
                        let k =
                          start_session-Ended c env down (store_hashes down u remaining s) now draw
                            u (rw (store_hashes, g) h) in
                        k
                    | inr g ↦
                        let k =
                          start_session-Ended c env down (store_hashes down u remaining s) now draw
                            u (rw (store_hashes, g) h) in
                        k
                  ])
          ]
  ]

  pub login-Ended :
      (c : Crypto) (env : Environment) (down : Faults) (s : Store) (now : ℕ) (draw : Draw)
      (input : Login)
      → Ended s
      → Ended (login c env down s now draw input).1
  unfolding login login_account
  login-Ended c env down s now draw input h =
      let refused = audit_failed_login-Ended down s input h in
      elim (Bool-cases (down "select account")) [
        | inl e ↦ rw e refused
        | inr e ↦ elim (Option-cases (find_account s input)) [
          | inl f ↦ rw (e, f) refused
          | inr ((t, u), f) ↦ rw (login, e, f) (account t u refused)
        ]
      ]
    where
      account :
          (t : Tenant) (u : Account)
          → Ended (audit_failed_login down s input)
          → Ended (login_account c env down s now draw input t u).1
      account t u refused = elim (Bool-cases (is_active u.status)) [
        | inr e ↦ rw e refused
        | inl e ↦ elim (Bool-cases (is_right (verify_password c input.password u.password_hash))) [
          | inr f ↦ rw (e, f) h
          | inl f ↦ elim (Bool-cases (t.suspended && not (is_super_admin u.role))) [
            | inl g ↦ rw (e, f, g) h
            | inr g ↦
                rw (e, f, g)
                  (second_factor-Ended c env down s now draw u input (first (mfa_of u) s.user_mfa)
                    h)
          ]
        ]
      ]

  revoke_where-Ended :
      (p : Session → Bool) (now : ℕ) (s : Store) → Ended s → Ended (revoke_where p now s)
  revoke_where-Ended p now s h =
      IsEnded-update p (revoke now) hash s.sessions (λ x. refl) (λ x k. ground arith) h

  touch-Ended :
      (down : Faults) (s : Store) (now : ℕ) (key : String) → Ended s → Ended (touch down s now key)
  unfolding touch
  touch-Ended down s now key h = elim (Bool-cases (down "touch session")) [
    | inl e ↦ rw e h
    | inr e ↦ rw e (IsEnded-update (is_stale now key) _ hash s.sessions (λ x. refl) (λ x k. k) h)
  ]

  rejected-Ended :
      (down : Faults) (s : Store) (key : String)
      → Ended s
      → Ended (audit_rejected_session down s key)
  unfolding audit_rejected_session
  rejected-Ended down s key h = elim (Bool-cases (down "select rejected")) [
    | inl e ↦ rw e h
    | inr e ↦ elim (Option-cases (first (λ x. x.token_hash == key) s.sessions)) [
      | inl f ↦ rw (e, f) h
      | inr (x, f) ↦ elim (Option-cases (first (is_owner x) s.accounts)) [
        | inl g ↦ rw (e, audit_rejected_session, f, g) h
        | inr (u, g) ↦ rw (e, audit_rejected_session, f, g) h
      ]
    ]
  ]

  require_hash-Ended :
      (down : Faults) (s : Store) (now : ℕ) (key : String)
      → Ended s
      → Ended (require_hash down s now key).1
  unfolding require_hash
  require_hash-Ended down s now key h =
      let refused = rejected-Ended down s key h in
      elim (Bool-cases (down "select session")) [
        | inl e ↦ rw e refused
        | inr e ↦ elim (Option-cases (session_user s now key)) [
          | inl f ↦ rw (e, f) refused
          | inr ((t, u), f) ↦ elim (Bool-cases (t.suspended && not (is_super_admin u.role))) [
            | inl g ↦ rw (require_hash, e, f, g) h
            | inr g ↦ rw (require_hash, e, f, g) (touch-Ended down s now key h)
          ]
        ]
      ]

  pub require_session-Ended :
      (c : Crypto) (env : Environment) (down : Faults) (s : Store) (now : ℕ)
      (cookie : Option String)
      → Ended s
      → Ended (require_session c env down s now cookie).1
  unfolding require_session
  require_session-Ended c env down s now cookie h = elim (Option-cases (cookie_hash c env cookie)) [
    | inl e ↦ rw (require_session, e) h
    | inr (key, e) ↦ rw (require_session, e) (require_hash-Ended down s now key h)
  ]

  pub logout-Ended :
      (c : Crypto) (env : Environment) (down : Faults) (s : Store) (now : ℕ)
      (cookie : Option String)
      → Ended s
      → Ended (logout c env down s now cookie).1
  unfolding logout
  logout-Ended c env down s now cookie h = elim (Option-cases (cookie_hash c env cookie)) [
    | inl e ↦ rw (logout, e) h
    | inr (key, e) ↦ elim (Bool-cases (down "revoke session")) [
      | inl f ↦ rw (logout, e, logout_hash, f) h
      | inr f ↦ elim (Option-cases (first (is_unrevoked_token key) s.sessions)) [
        | inl g ↦ rw (logout, e, logout_hash, f, g) h
        | inr (x, g) ↦ elim (Option-cases (first (is_owner x) s.accounts)) [
          | inl k ↦ rw (logout, e, logout_hash, f, g, k) h
          | inr (u, k) ↦
              rw (logout, e, logout_hash, f, g, k)
                (revoke_where-Ended (is_unrevoked_token key) now s h)
        ]
      ]
    ]
  ]

  pub revoke_others-Ended :
      (c : Crypto) (env : Environment) (down : Faults) (s : Store) (now : ℕ) (actor : CurrentUser)
      (cookie : Option String)
      → Ended s
      → Ended (revoke_other_sessions c env down s now actor cookie).1
  unfolding revoke_other_sessions
  revoke_others-Ended c env down s now actor cookie h = elim (Bool-cases (down "revoke others")) [
    | inl e ↦ rw e h
    | inr e ↦ rw e (revoke_where-Ended _ now s h)
  ]

  pub revoke_device-Ended :
      (c : Crypto) (env : Environment) (down : Faults) (s : Store) (now : ℕ) (actor : CurrentUser)
      (cookie : Option String) (id : ℕ)
      → Ended s
      → Ended (revoke_session_device c env down s now actor cookie id).1
  unfolding revoke_session_device
  revoke_device-Ended c env down s now actor cookie id h =
      elim (Bool-cases (down "revoke device")) [
        | inl e ↦ rw e h
        | inr e ↦ elim (Option-cases (first (is_device id actor.id) s.sessions)) [
          | inl f ↦ rw (e, f) h
          | inr (x, f) ↦ rw (e, f) (revoke_where-Ended _ now s h)
        ]
      ]
