-- ===== src/Auth/Mfa.antt =====
-- services/api/internal/httpapi/mfa.go: enrolling a second factor, confirming it and giving it up. The
-- notice by email is left out: its error is dropped, and no table of the model has it.
use Prim.Native.Char.{code}
use Prim.Native.String.{[] as empty_text, ◌∷◌ as put}
use xpace.Prelude.{
  ℕ, String, Bool, true, false, not, ◌&&◌, Option, none, some, List, [], ◌∷◌, ◌++◌, map, first,
  exists, keep, update_where, ◌==◌, nat_eq, text_eq, if◌then◌else◌, take_runes, to_upper,
}
use xpace.Http.{Response, error_json, respond_json, Faults, CurrentUser}
use xpace.Auth.{UserMfa, Store, entry, log_event}
use xpace.Auth.Primitives.{Bytes, Crypto, Environment}
use xpace.Auth.Totp.{encrypt_mfa_secret, decrypt_mfa_secret, is_time_code, verify_mfa}

-- user_id=$1 AND tenant_id=$2
abbrev pub is_mine : CurrentUser → UserMfa → Bool
is_mine actor m = m.user_id == actor.id && m.tenant_id == actor.tenant_id

-- What an enrolment draws: the secret's bytes, the nonce, and the tokens of the recovery codes.
pub record Enrolment : Type 0 where
  pub secret : Bytes
  pub nonce : Bytes
  pub tokens : List String

without_dash : String → String
without_dash empty_text = empty_text
without_dash (put c s) = let rest = without_dash s in if code c == b'-' then rest else put c rest

unfoldable pub recovery_code : String → String
unfolding without_dash
recovery_code token = to_upper (without_dash (take_runes 12 token))

abbrev pub enrolled : Crypto → Environment → CurrentUser → Enrolment → UserMfa
enrolled c env actor e = record {
  user_id = actor.id;
  tenant_id = actor.tenant_id;
  secret_encrypted = encrypt_mfa_secret c env e.nonce (c.base32_encode e.secret);
  recovery_hashes = map (λ t. c.hex (c.sha256 (recovery_code t))) e.tokens;
  enabled = false;
  confirmed_at = none;
}

-- INSERT … ON CONFLICT(user_id) DO UPDATE; the workspace of a row stays.
abbrev pub upsert_mfa : UserMfa → List UserMfa → List UserMfa
upsert_mfa row rows =
    if exists (λ m. m.user_id == row.user_id) rows
    then update_where (λ m. m.user_id == row.user_id) (λ m. record row { tenant_id = m.tenant_id })
        rows
    else rows ++ row ∷ []

abbrev pub is_enabled : Option UserMfa → Bool
is_enabled none = false
is_enabled (some m) = m.enabled

-- `mfaSettings` on POST; an error of its first query is dropped, and then counts as not enabled.
unfoldable pub enrol_mfa :
    Crypto → Environment → Faults → Store → CurrentUser → Option Enrolment → Response × Store
enrol_mfa c env down s actor draw =
    if not (down "select enabled") && is_enabled (first (is_mine actor) s.user_mfa)
    then (error_json 409 "MFA_ALREADY_ENABLED", s)
    else elim draw [
      | none ↦ (error_json 500 "INTERNAL_ERROR", s)
      | some e ↦ if down "upsert mfa" then (error_json 500 "INTERNAL_ERROR", s) else (
        respond_json 201,
        record s { user_mfa = upsert_mfa (enrolled c env actor e) s.user_mfa },
      )
    ]

unfoldable pub confirm_mfa :
    Crypto → Environment → Faults → Store → ℕ → CurrentUser → (code : String) → Response × Store
confirm_mfa c env down s now actor code =
    if down "select mfa"
    then (error_json 404 "MFA_NOT_ENROLLED", s)
    else elim (first (is_mine actor) s.user_mfa) [
      | none ↦ (error_json 404 "MFA_NOT_ENROLLED", s)
      | some m ↦
          if not (is_time_code c (decrypt_mfa_secret c env m.secret_encrypted) code now)
          then (error_json 401 "INVALID_MFA_CODE", s)
          else if down "enable mfa"
          then (error_json 500 "INTERNAL_ERROR", s)
          else (
            respond_json 204,
            log_event down
                (entry actor.tenant_id (some actor.id) "auth.mfa.enabled" "user" actor.id)
                (record s {
                  user_mfa =
                      update_where (is_mine actor)
                        (λ m. record m { enabled = true; confirmed_at = some now }) s.user_mfa;
                }),
          )
    ]

unfoldable pub disable_mfa :
    Crypto → Environment → Faults → Store → ℕ → CurrentUser → (code : String) → Response × Store
disable_mfa c env down s now actor code =
    if down "select mfa"
    then (error_json 404 "MFA_NOT_ENABLED", s)
    else elim (first (λ m. is_mine actor m && m.enabled) s.user_mfa) [
      | none ↦ (error_json 404 "MFA_NOT_ENABLED", s)
      | some m ↦ elim (verify_mfa c env now m.secret_encrypted m.recovery_hashes code) [
        | none ↦ (error_json 401 "INVALID_MFA_CODE", s)
        | some remaining ↦ if down "delete mfa" then (error_json 500 "INTERNAL_ERROR", s) else (
          respond_json 204,
          log_event down (entry actor.tenant_id (some actor.id) "auth.mfa.disabled" "user" actor.id)
              (record s { user_mfa = keep (λ x. not (is_mine actor x)) s.user_mfa }),
        )
      ]
    ]
