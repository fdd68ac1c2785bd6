-- ===== src/Auth.antt =====
-- services/api/internal/httpapi/auth.go: signing in, the session that a cookie names, signing out. The
-- JSON body and the cookie's value are arguments, and so is what is drawn at random. Times are whole
-- seconds, the database's clock being the service's.
pub mod Primitives
pub mod Tokens
pub mod Signing
pub mod Totp
pub mod Passwords
pub mod Sessions
pub mod Mfa
pub mod SignIn
pub mod Lasting
pub mod Codes
pub mod Recovery
pub mod Ended
pub mod Endings
pub mod Hashing
mod Examples
use xpace.Prelude.{
  ℕ, ◌+◌, ◌-◌, String, Bool, true, false, not, ◌&&◌, ◌||◌, Option, none, some, List, [], ◌∷◌, ◌++◌,
  first, exists, update_where, ltb, leb, ◌==◌, nat_eq, text_eq, if◌then◌else◌, trim_space, to_lower,
}
use xpace.Http.{
  Response, error_json, respond_json, Faults, Role, UserStatus, CurrentUser, AuditEvent,
  write_audit_event, is_active,
}
use xpace.Auth.Primitives.{Crypto, Environment}
use xpace.Auth.Tokens.{hash_token, signed_session_token, verify_signed_session_token}
use xpace.Auth.Totp.{verify_mfa}
use xpace.Auth.Passwords.{verify_password}

pub record Tenant : Type 0 where
  pub id : ℕ
  pub slug : String
  pub suspended : Bool

-- What signing in reads of a row of `users`.
pub record Account : Type 0 where
  pub id : ℕ
  pub tenant_id : ℕ
  pub email : String
  pub username : String
  pub role : Role
  pub password_hash : String
  pub status : UserStatus

pub record UserMfa : Type 0 where
  pub user_id : ℕ
  pub tenant_id : ℕ
  pub secret_encrypted : String
  pub recovery_hashes : List String
  pub enabled : Bool
  pub confirmed_at : Option ℕ

pub record Session : Type 0 where
  pub id : ℕ
  pub user_id : ℕ
  pub token_hash : String
  pub expires_at : ℕ
  pub revoked_at : Option ℕ
  pub last_seen_at : ℕ

pub record Store : Type 0 where
  pub tenants : List Tenant
  pub accounts : List Account
  pub user_mfa : List UserMfa
  pub sessions : List Session
  pub audit : List AuditEvent

-- An answer, and the cookie that it sets; an empty one tells the client to drop its cookie.
pub record Answer : Type 0 where
  pub response : Response
  pub cookie : Option String

abbrev pub refuse : ℕ → String → Answer
refuse status code = record { response = error_json status code; cookie = none }

pub record Login : Type 0 where
  pub tenant : String
  pub identity : String
  pub password : String
  pub totp_code : String

-- A session's random token, `none` where no bytes can be read, and the identifier of its row.
pub record Draw : Type 0 where
  pub token : Option String
  pub id : ℕ

abbrev pub session_seconds : ℕ
session_seconds = 86400

abbrev pub is_super_admin : Role → Bool
is_super_admin Role.super_admin = true
is_super_admin _ = false

abbrev pub has_slug : String → Tenant → Bool
has_slug slug t = t.slug == to_lower (trim_space slug)

-- LOWER(u.email)=LOWER($2) OR LOWER(u.username)=LOWER($2), in the workspace.
abbrev pub is_identity : Tenant → String → Account → Bool
is_identity t identity u =
    u.tenant_id == t.id
    && (to_lower u.email == to_lower (trim_space identity)
        || to_lower u.username == to_lower (trim_space identity))

abbrev pub mfa_of : Account → UserMfa → Bool
mfa_of u m = m.user_id == u.id && m.tenant_id == u.tenant_id

abbrev pub account_in : Store → String → Option Tenant → Option (Tenant × Account)
account_in s identity none = none
account_in s identity (some t) = elim (first (is_identity t identity) s.accounts) [
  | none ↦ none
  | some u ↦ some (t, u)
]

-- The query of `login`. A slug is unique; of two accounts that answer to the identity, by an email
-- and by a user name, the database may return either: the model takes the first.
unfoldable pub find_account : Store → Login → Option (Tenant × Account)
find_account s input = account_in s input.identity (first (has_slug input.tenant) s.tenants)

abbrev pub as_user : Account → CurrentUser
as_user u = record { id = u.id; tenant_id = u.tenant_id; role = u.role }

abbrev pub entry : ℕ → Option ℕ → String → String → ℕ → AuditEvent
entry tenant actor action resource_type id = record {
  tenant_id = tenant;
  actor_id = actor;
  action = action;
  resource_type = resource_type;
  resource_id = id;
}

abbrev pub log_event : Faults → AuditEvent → Store → Store
log_event down e s = record s { audit = write_audit_event down e s.audit }

-- `auditFailedLogin`: an event with no user has an empty resource, here 0.
unfoldable pub audit_failed_login : Faults → Store → Login → Store
audit_failed_login down s input =
    if down "select failed" then s else elim (first (has_slug input.tenant) s.tenants) [
      | none ↦ s
      | some t ↦ elim (first (is_identity t input.identity) s.accounts) [
        | none ↦ log_event down (entry t.id none "auth.login.failed" "user" 0) s
        | some u ↦ log_event down (entry t.id none "auth.login.failed" "user" u.id) s
      ]
    ]

-- The row of a new session.
abbrev pub new_session : Crypto → ℕ → Draw → (user : ℕ) → (token : String) → Session
new_session c now draw user token = record {
  id = draw.id;
  user_id = user;
  token_hash = hash_token c token;
  expires_at = now + session_seconds;
  revoked_at = none;
  last_seen_at = now;
}

-- `createSession`: the cookie's value and the tables, or an error. `token_hash` is unique.
unfoldable pub create_session :
    Crypto → Environment → Faults → Store → ℕ → Draw → (user : ℕ) → Option (String × Store)
create_session c env down s now draw user = elim draw.token [
  | none ↦ none
  | some token ↦
      if down "insert session" || exists (λ x. x.token_hash == hash_token c token) s.sessions
      then none
      else some (
        signed_session_token c env token,
        record s { sessions = s.sessions ++ new_session c now draw user token ∷ [] },
      )
]

unfoldable pub start_session :
    Crypto → Environment → Faults → Store → ℕ → Draw → Account → Answer × Store
start_session c env down s now draw u = elim (create_session c env down s now draw u.id) [
  | none ↦ (refuse 500 "INTERNAL_ERROR", s)
  | some (cookie, t) ↦ (
    record { response = respond_json 200; cookie = some cookie },
    log_event down (entry u.tenant_id (some u.id) "auth.login" "session" u.id) t,
  )
]

-- The UPDATE of the recovery hashes, whose error is dropped.
abbrev pub store_hashes : Faults → Account → List String → Store → Store
store_hashes down u hashes s = if down "update recovery" then s else record s {
  user_mfa = update_where (mfa_of u) (λ m. record m { recovery_hashes = hashes }) s.user_mfa;
}

unfoldable pub second_factor :
    Crypto
    → Environment
    → Faults
    → Store
    → ℕ
    → Draw
    → Account
    → Login
    → Option UserMfa
    → Answer × Store
second_factor c env down s now draw u input none = start_session c env down s now draw u
second_factor c env down s now draw u input (some m) =
    if not m.enabled
    then start_session c env down s now draw u
    else elim (verify_mfa c env now m.secret_encrypted m.recovery_hashes input.totp_code) [
      | none ↦ (
        refuse 401 "MFA_REQUIRED",
        log_event down (entry u.tenant_id none "auth.mfa.failed" "user" u.id) s,
      )
      | some remaining ↦ start_session c env down (store_hashes down u remaining s) now draw u
    ]

abbrev pub is_right : Option Bool → Bool
is_right none = false
is_right (some b) = b

unfoldable pub login_account :
    Crypto → Environment → Faults → Store → ℕ → Draw → Login → Tenant → Account → Answer × Store
login_account c env down s now draw input t u =
    if not (is_active u.status)
    then (refuse 401 "INVALID_CREDENTIALS", audit_failed_login down s input)
    else if not (is_right (verify_password c input.password u.password_hash))
    then (
      refuse 401 "INVALID_CREDENTIALS",
      log_event down (entry u.tenant_id none "auth.login.failed" "user" u.id) s,
    )
    else if t.suspended && not (is_super_admin u.role)
    then (
      refuse 403 "WORKSPACE_SUSPENDED",
      log_event down (entry u.tenant_id none "auth.login.blocked" "tenant" u.tenant_id) s,
    )
    else second_factor c env down s now draw u input (first (mfa_of u) s.user_mfa)

unfoldable pub login : Crypto → Environment → Faults → Store → ℕ → Draw → Login → Answer × Store
login c env down s now draw input =
    if down "select account"
    then (refuse 401 "INVALID_CREDENTIALS", audit_failed_login down s input)
    else elim (find_account s input) [
      | none ↦ (refuse 401 "INVALID_CREDENTIALS", audit_failed_login down s input)
      | some (t, u) ↦ login_account c env down s now draw input t u
    ]
