-- ===== src/Auth/Totp.antt =====
-- services/api/internal/httpapi/mfa.go: one-time codes, recovery codes, and the protection of a
-- secret. Times are whole seconds since 1970, as `Unix` gives them. A 32-bit word is a number, and
-- parts of it that do not overlap are added. A digest of HMAC-SHA1 has 20 bytes, so that the code
-- never reads outside it; the model reads 0 there.
use Prim.Native.Char.{Char}
use Prim.Native.String.{[] as empty_text, ◌∷◌ as put, len, char_at}
use xpace.Prelude.{
  ℕ, zero, suc, ◌+◌, ◌-◌, ◌*◌, ◌/◌, ◌%◌, ◌^◌, String, Bool, false, not, ◌||◌, Option, none, some,
  List, [], ◌∷◌, ◌++◌, length, ltb, ◌==◌, nat_eq, text_eq, if◌then◌else◌, trim_space, to_upper,
}
use xpace.Auth.Primitives.{Bytes, Crypto, Environment}

-- binary.BigEndian.PutUint64
abbrev pub put_uint64 : ℕ → Bytes
put_uint64 n =
    n / 2 ^ 56 % 256
    ∷ n / 2 ^ 48 % 256
    ∷ n / 2 ^ 40 % 256
    ∷ n / 2 ^ 32 % 256
    ∷ n / 2 ^ 24 % 256
    ∷ n / 2 ^ 16 % 256
    ∷ n / 2 ^ 8 % 256
    ∷ n % 256
    ∷ []

unfoldable pub byte_at : ℕ → Bytes → ℕ
byte_at n [] = 0
byte_at zero (b ∷ rest) = b
byte_at (suc n) (b ∷ rest) = byte_at n rest

-- The four bytes at the offset that the last byte gives, without the sign bit.
abbrev pub truncated : Bytes → ℕ
truncated digest =
    let offset = byte_at (length digest - 1) digest % 16 in
    byte_at offset digest % 128 * 2 ^ 24
    + byte_at (offset + 1) digest % 256 * 2 ^ 16
    + byte_at (offset + 2) digest % 256 * 2 ^ 8
    + byte_at (offset + 3) digest % 256

abbrev pub digit : ℕ → Char
digit n = char_at "0123456789" (n % 10)

-- fmt.Sprintf("%06d", …) of a number below a million.
abbrev pub six_digits : ℕ → String
six_digits n = put (digit (n / 100000)) (
    put (digit (n / 10000)) (
      put (digit (n / 1000))
        (put (digit (n / 100)) (put (digit (n / 10)) (put (digit n) empty_text)))))

abbrev totp_under : Crypto → ℕ → Option Bytes → String
totp_under c at none = ""
totp_under c at (some key) =
    six_digits (truncated (c.hmac_sha1 key (put_uint64 (at / 30))) % 1000000)

unfoldable pub totp : Crypto → (secret : String) → (at : ℕ) → String
totp c secret at = totp_under c at (c.base32_decode (to_upper secret))

-- The loop over the offsets -1, 0 and 1.
unfoldable pub valid_totp : Crypto → (secret code : String) → (now : ℕ) → Bool
valid_totp c secret code now =
    if not (len (trim_space code) == 6)
    then false
    else totp c secret (now - 30) == trim_space code
      || totp c secret now == trim_space code
      || totp c secret (now + 30) == trim_space code

abbrev pub mfa_key : Crypto → Environment → Bytes
mfa_key c env = c.sha256 env.signing_key

-- A nonce of GCM has 12 bytes.
unfoldable pub split_at : ℕ → Bytes → Bytes × Bytes
split_at zero bs = ([], bs)
split_at (suc n) [] = ([], [])
split_at (suc n) (b ∷ bs) = let rest = split_at n bs in (b ∷ rest.0, rest.1)

-- `gcm.Seal(nonce, nonce, …)` appends to the nonce.
abbrev pub encrypt_mfa_secret : Crypto → Environment → (nonce : Bytes) → String → String
encrypt_mfa_secret c env nonce value =
    c.raw_url_encode (nonce ++ c.gcm_seal (mfa_key c env) nonce value)

decrypt_bytes : Crypto → Environment → Option Bytes → Option String
decrypt_bytes c env none = none
decrypt_bytes c env (some encoded) =
    if ltb (length encoded) 12
    then none
    else c.gcm_open (mfa_key c env) (split_at 12 encoded).0 (split_at 12 encoded).1

unfoldable pub decrypt_mfa_secret : Crypto → Environment → String → Option String
unfolding decrypt_bytes
decrypt_mfa_secret c env value = decrypt_bytes c env (c.raw_url_decode value)

abbrev pub recovery_hash : Crypto → String → String
recovery_hash c code = c.hex (c.sha256 (to_upper (trim_space code)))

-- The hashes without the first that is the candidate, if there is one.
unfoldable pub spend : (candidate : String) → List String → Option (List String)
spend candidate [] = none
spend candidate (h ∷ rest) =
    let later = spend candidate rest in if h == candidate then some rest else still h later
  where
    still : String → Option (List String) → Option (List String)
    still h none = none
    still h (some hashes) = some (h ∷ hashes)

abbrev pub is_time_code : Crypto → Option String → (code : String) → (now : ℕ) → Bool
is_time_code c none code now = false
is_time_code c (some secret) code now = valid_totp c secret code now

-- The hashes that remain where the code is valid.
unfoldable pub verify_mfa :
    Crypto
    → Environment
    → (now : ℕ) → (secret_encrypted : String) → List String
    → (code : String) → Option (List String)
verify_mfa c env now secret_encrypted hashes code =
    if is_time_code c (decrypt_mfa_secret c env secret_encrypted) code now
    then some hashes
    else spend (recovery_hash c code) hashes
