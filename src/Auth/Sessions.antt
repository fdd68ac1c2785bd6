-- ===== src/Auth/Sessions.antt =====
-- services/api/internal/httpapi/auth.go and sessions.go: which caller a cookie stands for, and how a
-- session ends.
use xpace.Prelude.{
  ℕ, ◌+◌, String, Bool, true, false, not, ◌&&◌, Option, none, some, first, update_where, ltb, ◌==◌,
  nat_eq, text_eq, if◌then◌else◌,
}
use xpace.Http.{Response, error_json, respond_json, Faults, CurrentUser, is_active}
use xpace.Auth.{
  Tenant, Account, Session, Store, Answer, refuse, is_super_admin, as_user, entry, log_event,
}
use xpace.Auth.Primitives.{Crypto, Environment}
use xpace.Auth.Tokens.{hash_token, verify_signed_session_token}

abbrev pub is_unrevoked : Session → Bool
is_unrevoked x = elim x.revoked_at [ none ↦ true | some t ↦ false ]

-- token_hash=$1 AND revoked_at IS NULL AND expires_at>NOW()
abbrev pub is_live : ℕ → String → Session → Bool
is_live now hash x = x.token_hash == hash && is_unrevoked x && ltb now x.expires_at

abbrev pub is_owner : Session → Account → Bool
is_owner x u = u.id == x.user_id

abbrev pub with_tenant : Store → Account → Option (Tenant × Account)
with_tenant s u = elim (first (λ t. t.id == u.tenant_id) s.tenants) [
  | none ↦ none
  | some t ↦ some (t, u)
]

abbrev pub with_account : Store → Session → Option (Tenant × Account)
with_account s x = elim (first (is_owner x) s.accounts) [
  | none ↦ none
  | some u ↦ if is_active u.status then with_tenant s u else none
]

-- The query of `requireSession`.
unfoldable pub session_user : Store → ℕ → String → Option (Tenant × Account)
session_user s now hash = elim (first (is_live now hash) s.sessions) [
  | none ↦ none
  | some x ↦ with_account s x
]

-- `requireSession` answers, or calls the handler for the user that it found.
pub data Gate : Type 0 where
  answered : Response → Gate
  passed : CurrentUser → Gate

unfoldable pub audit_rejected_session : Faults → Store → String → Store
audit_rejected_session down s hash =
    if down "select rejected" then s else elim (first (λ x. x.token_hash == hash) s.sessions) [
      | none ↦ s
      | some x ↦ elim (first (is_owner x) s.accounts) [
        | none ↦ s
        | some u ↦ log_event down (entry u.tenant_id none "auth.session.rejected" "session" u.id) s
      ]
    ]

-- last_seen_at<NOW()-INTERVAL '5 minutes'
abbrev pub is_stale : ℕ → String → Session → Bool
is_stale now hash x = x.token_hash == hash && ltb (x.last_seen_at + 300) now

unfoldable pub touch : Faults → Store → ℕ → String → Store
touch down s now hash = if down "touch session" then s else record s {
  sessions = update_where (is_stale now hash) (λ x. record x { last_seen_at = now }) s.sessions;
}

abbrev unauthenticated : Gate
unauthenticated = answered (error_json 401 "UNAUTHENTICATED")

unfoldable pub require_hash : Faults → Store → ℕ → (hash : String) → Gate × Store
require_hash down s now hash =
    if down "select session"
    then (unauthenticated, audit_rejected_session down s hash)
    else elim (session_user s now hash) [
      | none ↦ (unauthenticated, audit_rejected_session down s hash)
      | some (t, u) ↦
          if t.suspended && not (is_super_admin u.role)
          then (answered (error_json 403 "WORKSPACE_SUSPENDED"), s)
          else (passed (as_user u), touch down s now hash)
    ]

-- The hash of the token in a cookie that verifies.
unfoldable pub cookie_hash : Crypto → Environment → Option String → Option String
cookie_hash c env none = none
cookie_hash c env (some value) = elim (verify_signed_session_token c env value) [
  | none ↦ none
  | some token ↦ some (hash_token c token)
]

unfoldable pub require_session :
    Crypto → Environment → Faults → Store → ℕ → (cookie : Option String) → Gate × Store
require_session c env down s now cookie = elim (cookie_hash c env cookie) [
  | none ↦ (unauthenticated, s)
  | some hash ↦ require_hash down s now hash
]

abbrev pub revoke : ℕ → Session → Session
revoke now x = record x { revoked_at = some now }

-- UPDATE … WHERE …; the RETURNING clause gives the row, of which there is one.
abbrev pub revoke_where : (Session → Bool) → ℕ → Store → Store
revoke_where p now s = record s { sessions = update_where p (revoke now) s.sessions }

abbrev pub is_unrevoked_token : String → Session → Bool
is_unrevoked_token hash x = x.token_hash == hash && is_unrevoked x

unfoldable pub logout_hash : Faults → Store → ℕ → String → Store
logout_hash down s now hash =
    if down "revoke session" then s else elim (first (is_unrevoked_token hash) s.sessions) [
      | none ↦ s
      | some x ↦ elim (first (is_owner x) s.accounts) [
        | none ↦ s
        | some u ↦
            log_event down (entry u.tenant_id (some u.id) "auth.logout" "session" u.id)
              (revoke_where (is_unrevoked_token hash) now s)
      ]
    ]

unfoldable pub logout :
    Crypto → Environment → Faults → Store → ℕ → (cookie : Option String) → Answer × Store
unfolding logout_hash
logout c env down s now cookie = (
  record { response = respond_json 204; cookie = some "" },
  elim (cookie_hash c env cookie) [ none ↦ s | some hash ↦ logout_hash down s now hash ],
)

-- `currentSessionHash`
abbrev pub current_session_hash : Crypto → Environment → Option String → String
current_session_hash c env cookie = elim (cookie_hash c env cookie) [ none ↦ "" | some hash ↦ hash ]

-- The other sessions of the caller that still count.
abbrev pub is_other : ℕ → ℕ → String → Session → Bool
is_other user now current x =
    x.user_id == user && is_unrevoked x && ltb now x.expires_at && not (x.token_hash == current)

-- `sessionDevices` on DELETE.
unfoldable pub revoke_other_sessions :
    Crypto
    → Environment
    → Faults
    → Store
    → ℕ
    → CurrentUser
    → (cookie : Option String) → Answer × Store
revoke_other_sessions c env down s now actor cookie =
    if down "revoke others" then (refuse 500 "INTERNAL_ERROR", s) else (
      record { response = respond_json 200; cookie = none },
      log_event down
          (entry actor.tenant_id (some actor.id) "auth.sessions.revoke_others" "user" actor.id)
          (revoke_where (is_other actor.id now (current_session_hash c env cookie)) now s),
    )

abbrev pub is_device : ℕ → ℕ → Session → Bool
is_device id user x = x.id == id && x.user_id == user && is_unrevoked x

unfoldable pub revoke_session_device :
    Crypto
    → Environment
    → Faults
    → Store
    → ℕ
    → CurrentUser
    → (cookie : Option String) → (session : ℕ) → Answer × Store
revoke_session_device c env down s now actor cookie session =
    if down "revoke device"
    then (refuse 404 "SESSION_NOT_FOUND", s)
    else elim (first (is_device session actor.id) s.sessions) [
      | none ↦ (refuse 404 "SESSION_NOT_FOUND", s)
      | some x ↦ (
        record {
          response = respond_json 204;
          cookie = if x.token_hash == current_session_hash c env cookie then some "" else none;
        },
        log_event down
            (entry actor.tenant_id (some actor.id) "auth.session.revoke" "session" session)
            (revoke_where (is_device session actor.id) now s),
      )
    ]
