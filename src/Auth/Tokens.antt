-- ===== src/Auth/Tokens.antt =====
-- services/api/internal/httpapi/token_signing.go: the signed value of the session cookie, under a key
-- that can be rotated; with `hashToken` of helpers.go.
use Prim.Native.Char.{Char, code}
use Prim.Native.String.{[], ◌∷◌, ◌++◌}
use xpace.Prelude.{
  ◌≡◌, String, Bool, true, false, not, ◌&&◌, ◌||◌, Option, none, some, ◌==◌, nat_eq, text_eq,
  if◌then◌else◌, is_empty,
}
use xpace.Auth.Primitives.{Crypto, Environment}

abbrev pub put_first : Char → Option (String × String) → Option (String × String)
put_first c none = none
put_first c (some (before, after)) = some (c ∷ before, after)

-- strings.Cut at one character: the text before its first occurrence, and the text after it.
unfoldable pub cut : Char → String → Option (String × String)
cut at [] = none
cut at (c ∷ s) = let rest = cut at s in if code c == code at then some ([], s) else put_first c rest

abbrev pub session_signature : Crypto → (token key : String) → String
session_signature c token key = c.raw_url_encode (c.hmac_sha256 key token)

unfoldable pub signed_session_token : Crypto → Environment → String → String
signed_session_token c env token = token ++ ("." ++ session_signature c token env.signing_key)

abbrev pub hash_token : Crypto → String → String
hash_token c token = c.hex (c.sha256 token)

abbrev pub is_some {ℓ} : {A : Type ℓ} → Option A → Bool
is_some none = false
is_some (some _) = true

-- `key != "" && hmac.Equal(…)`, of one of the keys.
unfoldable pub verifies : Crypto → (token signature key : String) → Bool
verifies c token signature key = not (is_empty key) && signature == session_signature c token key

verify_parts : Crypto → Environment → Option (String × String) → Option String
verify_parts c env none = none
verify_parts c env (some (token, signature)) =
    if is_empty token || is_empty signature
    then none
    else if verifies c token signature env.signing_key
    then some token
    else if verifies c token signature env.previous_key
    then some token
    else none

unfoldable pub verify_signed_session_token : Crypto → Environment → String → Option String
unfolding verify_parts
verify_signed_session_token c env value = verify_parts c env (cut "." value)

-- What the code relies on of a token: `randomToken` encodes bytes, without a dot.
abbrev pub IsToken : String → Type 0
IsToken token = (cut "." token ≡ none) × (is_empty token ≡ false)
