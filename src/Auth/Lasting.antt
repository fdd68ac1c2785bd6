-- ===== src/Auth/Lasting.antt =====
-- services/api/internal/httpapi/auth.go: the cookie of `login` before `requireSession`.
use xpace.Prelude.{
  ℕ, ◌+◌, ◌<◌, ◌≡◌, ◌∙◌, refl, sym, ap, inl, inr, String, true, false, not, ◌&&◌, none, some, List,
  [], ◌∷◌, ◌++◌, arith, first, exists, ◌==◌, nat_eq, text_eq, is_empty, Option-cases, first-append,
  first-none, first-by_key, first-holds, AtMostOne, eq_iff, nat_beq_iff,
}
use xpace.Http.{Faults, is_active}
use xpace.Auth.{
  Tenant, Account, Session, Store, Login, Draw, is_super_admin, has_slug, is_identity, account_in,
  find_account, new_session, login, as_user,
}
use xpace.Auth.Primitives.{Crypto, Environment}
use xpace.Auth.Tokens.{IsToken, hash_token, session_signature, verify_signed_session_token}
use xpace.Auth.Signing.{verify-signed_session_token}
use xpace.Auth.Sessions.{
  is_live, is_owner, session_user, with_account, with_tenant, passed, cookie_hash, require_hash,
  require_session,
}
use xpace.Auth.SignIn.{login_sound}

-- The primary keys of the two tables that the query of `requireSession` joins.
pub record HasKeys (s : Store) : Type 0 where
  pub accounts : (k : ℕ) → AtMostOne (λ u. u.id == k) s.accounts
  pub tenants : (k : ℕ) → AtMostOne (λ t. t.id == k) s.tenants

exists-live :
    (now : ℕ) (hash : String) (xs : List Session)
    → exists (λ x. x.token_hash == hash) xs ≡ false
    → exists (is_live now hash) xs ≡ false
unfolding exists
exists-live now hash [] h = refl
exists-live now hash (x ∷ xs) h = ground (arith, exists-live now hash xs)

found-rows :
    (s : Store) (input : Login) (t : Tenant) (u : Account)
    → find_account s input ≡ some (t, u)
    → (first (has_slug input.tenant) s.tenants ≡ some t)
      × (first (is_identity t input.identity) s.accounts ≡ some u)
unfolding find_account
found-rows s input t u h = elim (Option-cases (first (has_slug input.tenant) s.tenants)) [
  | inl e ↦ let refused : none ≡ some (t, u) = rw e at h in cc
  | inr (t', e) ↦ elim (Option-cases (first (is_identity t' input.identity) s.accounts)) [
    | inl f ↦ let refused : none ≡ some (t, u) = rw (e, account_in, f) at h in cc
    | inr (u', f) ↦
        let same : some (t', u') ≡ some (t, u) = rw (e, account_in, f) at h in
        let tenant : t' ≡ t = cc in
        let account : u' ≡ u = cc in (e ∙ ap some tenant, rw (sym tenant) (f ∙ ap some account))
  ]
]

-- The steps of the query that lets a caller through.
record IsLetIn (s : Store) (now : ℕ) (hash : String) (x : Session) (t : Tenant) (u : Account)
    : Type 0 where
  pub session : first (is_live now hash) s.sessions ≡ some x
  pub account : first (is_owner x) s.accounts ≡ some u
  pub active_account : is_active u.status ≡ true
  pub tenant : first (λ t. t.id == u.tenant_id) s.tenants ≡ some t
  pub is_open : (t.suspended && not (is_super_admin u.role)) ≡ false

require_hash-passed :
    (down : Faults) (s : Store) (now : ℕ) (hash : String) (x : Session) (t : Tenant) (u : Account)
    → IsLetIn s now hash x t u
    → down "select session" ≡ false
    → (require_hash down s now hash).0 ≡ passed (as_user u)
unfolding require_hash session_user
require_hash-passed down s now hash x t u h up =
    let row : session_user s now hash ≡ some (t, u) =
      rw (session_user, h.session, with_account, h.account, h.active_account, with_tenant, h.tenant)
        refl in
    rw (up, row, h.is_open) refl

module _ (c : Crypto) (env : Environment) (down down' : Faults) (s : Store) (now later : ℕ)
    (draw : Draw) (input : Login) (value token : String) where
  live_session :
      (t : Store) (u : Account)
      → later < now + 86400
      → exists (λ x. x.token_hash == hash_token c token) s.sessions ≡ false
      → t.sessions ≡ s.sessions ++ new_session c now draw u.id token ∷ []
      → first (is_live later (hash_token c token)) t.sessions
        ≡ some (new_session c now draw u.id token)
  live_session t u h fresh e =
      let row = new_session c now draw u.id token in
      let live : is_live later (hash_token c token) row ≡ true =
        rw ((eq_iff (hash_token c token) _).1 refl) (ground (arith, h)) in
      rw
        (
          e,
          first-append (is_live later (hash_token c token)) s.sessions row,
          first-none _ _ (exists-live later (hash_token c token) s.sessions fresh),
        )
        (rw live refl)

  -- The cookie that `login` sets stands for the account that it found until a day has passed, if
  -- the session's query does not fail, rows have their keys, and the signing key is set.
  pub login-require_session :
      HasKeys s
      → draw.token ≡ some token
      → IsToken token
      → is_empty env.signing_key ≡ false
      → is_empty (session_signature c token env.signing_key) ≡ false
      → later < now + 86400
      → down' "select session" ≡ false
      → (login c env down s now draw input).0.cookie ≡ some value
      → (t : Tenant) × (u : Account) × (find_account s input ≡ some (t, u))
        × ((require_session c env down' (login c env down s now draw input).1 later (some value)).0
            ≡ passed (as_user u))
  unfolding require_session cookie_hash
  login-require_session keys drawn token_ok key signature time up h =
      let in_ = login_sound c env down s now draw input value h in
      let u = in_.account in
      let t = in_.tenant in
      let k = in_.started in
      let (tenant, account) = found-rows s input t u in_.is_found in
      let same : some k.token ≡ some token = sym k.drawn ∙ drawn in
      let is_same : k.token ≡ token = cc in
      let row = new_session c now draw u.id token in
      let read : verify_signed_session_token c env value ≡ some token =
        rw (k.is_signed, is_same)
          (verify-signed_session_token c env env token token_ok key signature (inl refl)) in
      let steps : IsLetIn (login c env down s now draw input).1 later (hash_token c token) row t u =
        record {
          session =
              live_session (login c env down s now draw input).1 u time (rw is_same at k.is_fresh)
                (rw is_same at k.sessions);
          account = rw k.accounts (
              first-by_key (λ x. x.id == u.id) (is_identity t input.identity) s.accounts u
                (keys.accounts u.id) account ((nat_beq_iff u.id u.id).1 refl));
          active_account = in_.is_active_account;
          tenant = rw k.tenants (
              first-by_key (λ x. x.id == u.tenant_id) (has_slug input.tenant) s.tenants t
                (keys.tenants u.tenant_id) tenant
                (ground (arith, first-holds (is_identity t input.identity) s.accounts account)));
          is_open = elim in_.is_open [ inl e ↦ rw e refl | inr e ↦ rw e (ground arith) ];
        } in
      (
        t,
        u,
        in_.is_found,
        rw (require_session, cookie_hash, read)
            (require_hash-passed down' _ later (hash_token c token) row t u steps up),
      )
