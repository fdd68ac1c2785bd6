-- ===== src/Auth/Examples.antt =====
-- Runs of signing in, and the theorems at concrete rows. The cryptography is a toy: a digest is the
-- text's length, and bytes are written in unary.
use Prim.Native.Char.{code}
use Prim.Native.String.{[] as empty_text, ◌∷◌ as put, len}
use xpace.Prelude.{
  ℕ, zero, suc, ◌≡◌, ◌↔◌, refl, sym, ap, inr, eq_iff, AtMostOne, String, true, false, Option, none,
  some, [], ◌∷◌, length, arith, ◌==◌, nat_eq, text_eq, if◌then◌else◌, first, exists, update_where,
  trim_space, to_upper, to_lower, is_empty,
}
use xpace.Http.{no_faults, member, UserStatus, write_audit_event}
use xpace.Auth.{
  Account, Session, Store, UserMfa, Login, Draw, Tenant, login, login_account, second_factor,
  start_session, create_session, find_account, mfa_of, as_user,
}
use xpace.Auth.Primitives.{Bytes, Crypto, Environment}
use xpace.Auth.Tokens.{cut, signed_session_token, verify_signed_session_token, verifies}
use xpace.Auth.Signing.{Accepted, verify_signed_session_token_iff, verify-signed_session_token}
use xpace.Auth.Totp.{
  totp, valid_totp, is_time_code, decrypt_mfa_secret, split_at, byte_at, spend, verify_mfa,
  recovery_hash,
}
use xpace.Auth.Passwords.{
  split, hash_password, verify_password, verify_parts, parameters, argon_memory, argon_time,
  argon_threads,
}
use xpace.Auth.Sessions.{
  passed, require_session, require_hash, cookie_hash, session_user, touch, logout, is_live,
  revoke_other_sessions, current_session_hash, logout_hash,
}
use xpace.Auth.SignIn.{SignedIn, login_sound}
use xpace.Auth.Lasting.{HasKeys, login-require_session}
use xpace.Auth.Codes.{totp-valid_totp}
use xpace.Auth.Recovery.{recovery_code_once}
use xpace.Auth.Endings.{
  sign_in, request, serve, serve_all, is_unauthenticated, is_spared, logout_final,
  revoke_other_sessions_iff,
}
use xpace.Auth.Hashing.{IsCodec, verify-hash_password}

abbrev ones : ℕ → String → String
ones zero s = put "b" s
ones (suc n) s = put "a" (ones n s)

abbrev unary : Bytes → String
unary [] = ""
unary (n ∷ rest) = ones n (unary rest)

abbrev more : Option Bytes → Option Bytes
more none = none
more (some []) = none
more (some (n ∷ rest)) = some (suc n ∷ rest)

abbrev next : Option Bytes → Option Bytes
next none = none
next (some bytes) = some (0 ∷ bytes)

abbrev read_unary : String → Option Bytes
read_unary empty_text = some []
read_unary (put c s) = let rest = read_unary s in if code c == b'b' then next rest else more rest

read-ones :
    (n : ℕ) (s : String) (b : Bytes) → read_unary s ≡ some b → read_unary (ones n s) ≡ some (n ∷ b)
read-ones zero s b h = ap next h
read-ones (suc n) s b h = ap more (read-ones n s b h)

read-unary : (b : Bytes) → read_unary (unary b) ≡ some b
read-unary [] = refl
read-unary (n ∷ rest) = read-ones n (unary rest) rest (read-unary rest)

cut-ones : (n : ℕ) (s : String) → cut "$" s ≡ none → cut "$" (ones n s) ≡ none
unfolding cut
cut-ones zero s h = rw h refl
cut-ones (suc n) s h = rw (cut-ones n s h) refl

cut-unary : (b : Bytes) → cut "$" (unary b) ≡ none
unfolding cut
cut-unary [] = refl
cut-unary (n ∷ rest) = cut-ones n (unary rest) (cut-unary rest)

abbrev zeros : ℕ → Bytes
zeros zero = []
zeros (suc n) = 0 ∷ zeros n

length-zeros : (n : ℕ) → length (zeros n) ≡ n
length-zeros zero = refl
length-zeros (suc n) = ap suc (length-zeros n)

abbrev toy : Crypto
toy = record {
  hmac_sha256 = λ key message. len key ∷ len message ∷ [];
  hmac_sha1 = λ key message. zeros 20;
  sha256 = λ s. len s ∷ [];
  hex = unary;
  raw_url_encode = unary;
  raw_url_decode = λ s. some (zeros 20);
  raw_std_encode = unary;
  raw_std_decode = read_unary;
  base32_encode = unary;
  base32_decode = λ s. some (zeros 2);
  gcm_seal = λ key nonce s. [];
  gcm_open = λ key nonce sealed. some "SECRET";
  id_key = λ password salt time memory threads size. zeros size;
  scan_parameters =
      λ s. if s == parameters then some (argon_memory, argon_time, argon_threads) else none;
}

codec : IsCodec toy
codec = record {
  decode-encode = read-unary;
  no_dollar = cut-unary;
  scan = refl;
  size = λ password salt time memory threads size. length-zeros size;
}

machine : Unit {0}
unfolding login login_account second_factor start_session create_session find_account first exists
    update_where trim_space to_upper to_lower write_audit_event cut signed_session_token
    verify_signed_session_token verifies totp valid_totp decrypt_mfa_secret split_at byte_at spend
    verify_mfa split verify_password verify_parts hash_password require_session require_hash
    cookie_hash session_user touch logout logout_hash revoke_other_sessions serve serve_all
machine = tt

abbrev keys : Environment
keys = record { signing_key = "k1"; previous_key = "" }

abbrev rotated : Environment
rotated = record { signing_key = "newer"; previous_key = "k1" }

abbrev stored_hash : String
stored_hash = "$argon2id$v=19$m=65536,t=3,p=2$b$bbbbbbbbbbbbbbbbbbbbbbbbbbbbbbbb"

made : hash_password toy (some (0 ∷ [])) "password" ≡ some stored_hash
unfolding machine
made = refl

verify-hash_password_example : verify_password toy "password" stored_hash ≡ some true
verify-hash_password_example = verify-hash_password toy (0 ∷ []) "password" stored_hash codec made

abbrev value : String
value = "token.aabaaaaab"

token_without_dot : (cut "." "token" ≡ none) × (is_empty "token" ≡ false)
unfolding machine
token_without_dot = (refl, refl)

verify-signed_session_token_example :
    verify_signed_session_token toy rotated (signed_session_token toy keys "token") ≡ some "token"
verify-signed_session_token_example =
    verify-signed_session_token toy keys rotated "token" token_without_dot refl refl (inr refl)

verify_signed_session_token_iff_example :
    (verify_signed_session_token toy keys value ≡ some "token") ↔ Accepted toy keys value "token"
verify_signed_session_token_iff_example = verify_signed_session_token_iff toy keys value "token"

abbrev acme : Tenant
acme = record { id = 7; slug = "acme"; suspended = false }

abbrev ann : Account
ann = record {
  id = 1;
  tenant_id = 7;
  email = "ann@acme.example";
  username = "ann";
  role = member;
  password_hash = stored_hash;
  status = UserStatus.active;
}

abbrev factor : UserMfa
factor = record {
  user_id = 1;
  tenant_id = 7;
  secret_encrypted = "x";
  recovery_hashes = "aaaaaaaab" ∷ "aaaab" ∷ [];
  enabled = true;
  confirmed_at = some 5;
}

abbrev phone : Session
phone = record {
  id = 5;
  user_id = 1;
  token_hash = "b";
  expires_at = 5000;
  revoked_at = none;
  last_seen_at = 900;
}

abbrev start : Store
start = record {
  tenants = acme ∷ [];
  accounts = ann ∷ [];
  user_mfa = factor ∷ [];
  sessions = phone ∷ [];
  audit = [];
}

abbrev with_code : Login
with_code = record {
  tenant = "Acme";
  identity = "ann";
  password = "password";
  totp_code = "recovery";
}

abbrev draw : Draw
draw = record { token = some "token"; id = 6 }

abbrev draw2 : Draw
draw2 = record { token = some "other token"; id = 7 }

cookie_set : (login toy keys no_faults start 1000 draw with_code).0.cookie ≡ some value
unfolding machine
cookie_set = refl

login_sound_example :
    SignedIn toy keys start 1000 draw with_code value
      (login toy keys no_faults start 1000 draw with_code).1
login_sound_example = login_sound toy keys no_faults start 1000 draw with_code value cookie_set

one_account : HasKeys start
unfolding machine
one_account = record { accounts = λ k. (λ _. refl, tt); tenants = λ k. (λ _. refl, tt) }

login-require_session_example :
    (t : Tenant) × (u : Account) × (find_account start with_code ≡ some (t, u))
    × ((require_session toy keys no_faults
          (login toy keys no_faults start 1000 draw with_code).1
          5000
          (some value)).0
        ≡ passed (as_user u))
login-require_session_example =
    login-require_session toy keys no_faults no_faults start 1000 5000 draw with_code value "token"
      one_account refl token_without_dot refl refl (omega arith) refl cookie_set

found : find_account start with_code ≡ some (acme, ann)
unfolding machine
found = refl

factor_of_ann : first (mfa_of ann) start.user_mfa ≡ some factor
unfolding machine
factor_of_ann = refl

hash_once : AtMostOne (λ h. h == recovery_hash toy "recovery") factor.recovery_hashes
unfolding machine
hash_once = (λ _. refl, (λ _. refl, tt))

no_time_code : is_time_code toy (decrypt_mfa_secret toy keys "x") "recovery" 1000 ≡ false
unfolding machine
no_time_code = refl

no_time_code_later : is_time_code toy (decrypt_mfa_secret toy keys "x") "recovery" 2000 ≡ false
unfolding machine
no_time_code_later = refl

recovery_code_once_example :
    (login toy keys no_faults
      (login toy keys no_faults start 1000 draw with_code).1
      2000
      draw2
      with_code).0.cookie
    ≡ none
recovery_code_once_example =
    recovery_code_once toy keys no_faults no_faults start 1000 2000 draw draw2 with_code with_code
      acme acme ann factor value found found factor_of_ann refl no_time_code no_time_code_later refl
      hash_once refl cookie_set

totp-valid_totp_example : valid_totp toy "SECRET" (totp toy "SECRET" 1030) 1000 ≡ true
totp-valid_totp_example =
    totp-valid_totp toy "SECRET" 1030 1000 refl (omega arith) (omega arith) (omega arith)

abbrev phone_value : String
phone_value = ".b"

let_in :
    (require_session toy keys no_faults
      (login toy keys no_faults start 1000 draw with_code).1
      2000
      (some value)).0
    ≡ passed (as_user ann)
unfolding machine
let_in = refl

abbrev signed_in : Store
signed_in = (login toy keys no_faults start 1000 draw with_code).1

one_hash : (hash : String) → AtMostOne (λ x. x.token_hash == hash) signed_in.sessions
unfolding machine
one_hash hash = (λ e. rw (sym ((eq_iff "b" hash).0 e)) refl, (λ _. refl, tt))

logout_final_example :
    (require_session toy keys no_faults
      (serve_all toy keys
        (sign_in no_faults 2600 draw2 with_code ∷ request no_faults 2700 (some value) ∷ [])
        (logout toy keys no_faults signed_in 2500 (some value)).1)
      2800
      (some value)).0
    ≡ is_unauthenticated
logout_final_example =
    logout_final toy keys no_faults no_faults no_faults signed_in 2000 2500 2800 (some value)
      (as_user ann)
      (sign_in no_faults 2600 draw2 with_code ∷ request no_faults 2700 (some value) ∷ []) one_hash
      let_in refl

revoke_other_sessions_iff_example :
    exists
      (is_live 2200 "b")
      (revoke_other_sessions toy keys no_faults signed_in 2100
        (as_user ann)
        (some value)).1.sessions
    ≡ exists (is_spared 1 (current_session_hash toy keys (some value)) 2200 "b") signed_in.sessions
revoke_other_sessions_iff_example =
    revoke_other_sessions_iff toy keys no_faults signed_in 2100 2200 (as_user ann) (some value) "b"
      refl (omega arith)
