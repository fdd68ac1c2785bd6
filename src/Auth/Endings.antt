-- ===== src/Auth/Endings.antt =====
-- services/api/internal/httpapi/auth.go, sessions.go and mfa.go: signing out, over all that follows it.
use xpace.Prelude.{
  ℕ, ◌≤◌, ◌≡◌, ◌∙◌, refl, inl, inr, String, Bool, false, not, ◌&&◌, ◌||◌, Option, none, some, List,
  [], ◌∷◌, arith, exists, first, update_where, ◌==◌, nat_eq, text_eq, if◌then◌else◌, Bool-cases,
  Option-cases, first-none, first-holds, first-by_key, exists_of_found, exists-update,
  exists-narrow, AtMostOne,
}
use xpace.Http.{error_json, Faults, CurrentUser}
use xpace.Auth.{Tenant, Account, Session, Store, Login, Draw, login}
use xpace.Auth.Primitives.{Crypto, Environment}
use xpace.Auth.Sessions.{
  is_live, is_owner, with_account, session_user, Gate, answered, passed, require_hash, cookie_hash,
  require_session, logout, logout_hash, is_unrevoked_token, revoke, is_other, current_session_hash,
  revoke_other_sessions, revoke_session_device,
}
use xpace.Auth.Mfa.{Enrolment, enrol_mfa, confirm_mfa, disable_mfa}
use xpace.Auth.Ended.{
  Ended, exists_live_of_ended, login-Ended, require_session-Ended, logout-Ended,
  revoke_others-Ended, revoke_device-Ended,
}

-- What clients ask for, each with the time, the statements that then fail, and the cookie.
pub data Operation : Type 0 where
  sign_in : Faults → ℕ → Draw → Login → Operation
  request : Faults → ℕ → Option String → Operation
  sign_out : Faults → ℕ → Option String → Operation
  end_others : Faults → ℕ → CurrentUser → Option String → Operation
  end_device : Faults → ℕ → CurrentUser → Option String → ℕ → Operation
  enrol : Faults → CurrentUser → Option Enrolment → Operation
  confirm : Faults → ℕ → CurrentUser → String → Operation
  disable : Faults → ℕ → CurrentUser → String → Operation

unfoldable pub serve : Crypto → Environment → Operation → Store → Store
serve c env (sign_in down now draw input) s = (login c env down s now draw input).1
serve c env (request down now cookie) s = (require_session c env down s now cookie).1
serve c env (sign_out down now cookie) s = (logout c env down s now cookie).1
serve c env (end_others down now actor cookie) s =
    (revoke_other_sessions c env down s now actor cookie).1
serve c env (end_device down now actor cookie id) s =
    (revoke_session_device c env down s now actor cookie id).1
serve c env (enrol down actor draw) s = (enrol_mfa c env down s actor draw).1
serve c env (confirm down now actor code) s = (confirm_mfa c env down s now actor code).1
serve c env (disable down now actor code) s = (disable_mfa c env down s now actor code).1

unfoldable pub serve_all : Crypto → Environment → List Operation → Store → Store
serve_all c env [] s = s
serve_all c env (o ∷ rest) s = serve_all c env rest (serve c env o s)

enrol_mfa-sessions :
    (c : Crypto) (env : Environment) (down : Faults) (s : Store) (actor : CurrentUser)
    (draw : Option Enrolment)
    → (enrol_mfa c env down s actor draw).1.sessions ≡ s.sessions
unfolding enrol_mfa
enrol_mfa-sessions c env down s actor draw = ground arith

confirm_mfa-sessions :
    (c : Crypto) (env : Environment) (down : Faults) (s : Store) (now : ℕ) (actor : CurrentUser)
    (code : String)
    → (confirm_mfa c env down s now actor code).1.sessions ≡ s.sessions
unfolding confirm_mfa
confirm_mfa-sessions c env down s now actor code = ground arith

disable_mfa-sessions :
    (c : Crypto) (env : Environment) (down : Faults) (s : Store) (now : ℕ) (actor : CurrentUser)
    (code : String)
    → (disable_mfa c env down s now actor code).1.sessions ≡ s.sessions
unfolding disable_mfa
disable_mfa-sessions c env down s now actor code = ground arith

module _ (c : Crypto) (env : Environment) (hash : String) where
  serve-Ended : (o : Operation) (s : Store) → Ended hash s → Ended hash (serve c env o s)
  unfolding serve
  serve-Ended (sign_in down now draw input) s h = login-Ended hash c env down s now draw input h
  serve-Ended (request down now cookie) s h = require_session-Ended hash c env down s now cookie h
  serve-Ended (sign_out down now cookie) s h = logout-Ended hash c env down s now cookie h
  serve-Ended (end_others down now actor cookie) s h =
      revoke_others-Ended hash c env down s now actor cookie h
  serve-Ended (end_device down now actor cookie id) s h =
      revoke_device-Ended hash c env down s now actor cookie id h
  serve-Ended (enrol down actor draw) s h = rw (enrol_mfa-sessions c env down s actor draw) h
  serve-Ended (confirm down now actor code) s h =
      rw (confirm_mfa-sessions c env down s now actor code) h
  serve-Ended (disable down now actor code) s h =
      rw (disable_mfa-sessions c env down s now actor code) h

  serve_all-Ended :
      (os : List Operation) (s : Store) → Ended hash s → Ended hash (serve_all c env os s)
  unfolding serve_all
  serve_all-Ended [] s h = h
  serve_all-Ended (o ∷ rest) s h = serve_all-Ended rest (serve c env o s) (serve-Ended o s h)

abbrev pub is_unauthenticated : Gate
is_unauthenticated = answered (error_json 401 "UNAUTHENTICATED")

Ended-refused :
    (c : Crypto) (env : Environment) (down : Faults) (s : Store) (now : ℕ) (cookie : Option String)
    (hash : String)
    → cookie_hash c env cookie ≡ some hash
    → Ended hash s
    → (require_session c env down s now cookie).0 ≡ is_unauthenticated
unfolding require_session require_hash session_user
Ended-refused c env down s now cookie hash e h =
    let gone =
      first-none (is_live now hash) s.sessions (exists_live_of_ended now hash s.sessions h.1) in
    elim (Bool-cases (down "select session")) [
      | inl f ↦ rw (require_session, e, require_hash, f) refl
      | inr f ↦ rw (require_session, e, require_hash, f, session_user, gone) refl
    ]

-- Signing out ends every session that it is for.
exists-update_all :
    (p : Session → Bool) (f : Session → Session) (xs : List Session)
    → ((x : Session) → p (f x) ≡ false)
    → exists p (update_where p f xs) ≡ false
unfolding exists update_where
exists-update_all p f [] k = refl
exists-update_all p f (x ∷ xs) k = elim (Bool-cases (p x)) [
  | inl e ↦ rw (e, k x) (exists-update_all p f xs k)
  | inr e ↦ rw (e, e) (exists-update_all p f xs k)
]

AtMostOne-weaker :
    (hash : String) (xs : List Session)
    → AtMostOne (λ x. x.token_hash == hash) xs
    → AtMostOne (is_unrevoked_token hash) xs
AtMostOne-weaker hash [] h = tt
AtMostOne-weaker hash (x ∷ xs) h = (
  λ e. exists-narrow _ _ xs (λ y k. rw k refl) (h.0 (ground (arith, e))),
  AtMostOne-weaker hash xs h.1,
)

-- What a caller who was let through had in the tables.
session_of_user :
    (s : Store) (now : ℕ) (hash : String) {r : Tenant × Account}
    → session_user s now hash ≡ some r
    → (x : Session) × (u : Account) × (first (is_live now hash) s.sessions ≡ some x)
      × (first (is_owner x) s.accounts ≡ some u)
unfolding session_user
session_of_user s now hash {r = r} h = elim (Option-cases (first (is_live now hash) s.sessions)) [
  | inl e ↦ let refused : none ≡ some r = rw (session_user, e) at h in cc
  | inr (x, e) ↦ elim (Option-cases (first (is_owner x) s.accounts)) [
    | inl f ↦ let refused : none ≡ some r = rw (session_user, e, with_account, f) at h in cc
    | inr (u, f) ↦ (x, u, e, f)
  ]
]

let_through :
    (c : Crypto) (env : Environment) (down : Faults) (s : Store) (now : ℕ) (cookie : Option String)
    (user : CurrentUser)
    → (require_session c env down s now cookie).0 ≡ passed user
    → (hash : String) × (r : Tenant × Account) × (cookie_hash c env cookie ≡ some hash)
      × (session_user s now hash ≡ some r)
unfolding require_session require_hash
let_through c env down s now cookie user h = elim (Option-cases (cookie_hash c env cookie)) [
  | inl e ↦ let refused : is_unauthenticated ≡ passed user = rw (require_session, e) at h in cc
  | inr (hash, e) ↦ elim (Bool-cases (down "select session")) [
    | inl f ↦
        let refused : is_unauthenticated ≡ passed user =
          rw (require_session, e, require_hash, f) at h in
        cc
    | inr f ↦ elim (Option-cases (session_user s now hash)) [
      | inl g ↦
          let refused : is_unauthenticated ≡ passed user =
            rw (require_session, e, require_hash, f, g) at h in
          cc
      | inr (r, g) ↦ (hash, r, e, g)
    ]
  ]
]

logout-Ended_self :
    (c : Crypto) (env : Environment) (down : Faults) (s : Store) (now : ℕ) (cookie : Option String)
    (hash : String) (x : Session) (u : Account)
    → cookie_hash c env cookie ≡ some hash
    → down "revoke session" ≡ false
    → first (is_unrevoked_token hash) s.sessions ≡ some x
    → first (is_owner x) s.accounts ≡ some u
    → Ended hash (logout c env down s now cookie).1
unfolding logout
logout-Ended_self c env down s now cookie hash x u e up here owner =
    rw (logout, e, logout_hash, up, here, owner)
      (
        exists-update (λ y. y.token_hash == hash) (is_unrevoked_token hash) (revoke now) s.sessions
              (λ y. refl)
            ∙ exists_of_found (λ y. y.token_hash == hash) (is_unrevoked_token hash) s.sessions x
                here (ground (arith, first-holds (is_unrevoked_token hash) s.sessions here)),
        exists-update_all (is_unrevoked_token hash) (revoke now) s.sessions (λ y. ground arith),
      )

-- Where a cookie let a caller through, and signing out with it did not fail, it lets nobody through
-- any more, whatever is asked for afterwards, at any time and whichever statements fail.
pub logout_final :
    (c : Crypto) (env : Environment) (down down' down'' : Faults) (s : Store) (now at later : ℕ)
    (cookie : Option String) (user : CurrentUser) (os : List Operation)
    → ((hash : String) → AtMostOne (λ x. x.token_hash == hash) s.sessions)
    → (require_session c env down s now cookie).0 ≡ passed user
    → down' "revoke session" ≡ false
    → (require_session c env down''
        (serve_all c env os (logout c env down' s at cookie).1)
        later
        cookie).0
      ≡ is_unauthenticated
logout_final c env down down' down'' s now at later cookie user os one h up =
    let (hash, r, e, g) = let_through c env down s now cookie user h in
    let (x, u, live, owner) = session_of_user s now hash g in
    let holds = first-holds (is_live now hash) s.sessions live in
    let here =
      first-by_key (is_unrevoked_token hash) (is_live now hash) s.sessions x
        (AtMostOne-weaker hash s.sessions (one hash)) live (ground (arith, holds)) in
    Ended-refused c env down'' _ later cookie hash e (
      serve_all-Ended c env hash os _
        (logout-Ended_self c env down' s at cookie hash x u e up here owner))

-- A session that a later request still finds.
abbrev pub is_spared : ℕ → String → ℕ → String → Session → Bool
is_spared user current later hash x =
    is_live later hash x && (not (x.user_id == user) || x.token_hash == current)

spared-revoked :
    (user : ℕ) (current : String) (now later : ℕ) (hash : String) (x : Session)
    → now ≤ later
    → is_live later hash (if is_other user now current x then revoke now x else x)
      ≡ is_spared user current later hash x
spared-revoked user current now later hash x h = ground arith

exists-spared :
    (user : ℕ) (current : String) (now later : ℕ) (hash : String) (xs : List Session)
    → now ≤ later
    → exists (is_live later hash) (update_where (is_other user now current) (revoke now) xs)
      ≡ exists (is_spared user current later hash) xs
unfolding exists update_where
exists-spared user current now later hash [] h = refl
exists-spared user current now later hash (x ∷ xs) h =
    rw
      (
        spared-revoked user current now later hash x h,
        exists-spared user current now later hash xs h,
      )
      refl

-- After a caller ended the other sessions, a session counts exactly when it counted and is either of
-- another user or the one that the caller's cookie stands for.
pub revoke_other_sessions_iff :
    (c : Crypto) (env : Environment) (down : Faults) (s : Store) (now later : ℕ)
    (actor : CurrentUser) (cookie : Option String) (hash : String)
    → down "revoke others" ≡ false
    → now ≤ later
    → exists (is_live later hash) (revoke_other_sessions c env down s now actor cookie).1.sessions
      ≡ exists (is_spared actor.id (current_session_hash c env cookie) later hash) s.sessions
unfolding revoke_other_sessions
revoke_other_sessions_iff c env down s now later actor cookie hash up h =
    rw up (exists-spared actor.id (current_session_hash c env cookie) now later hash s.sessions h)
