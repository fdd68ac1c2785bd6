-- ===== src/Auth/Passwords.antt =====
-- services/api/internal/auth/password.go: password hashes in the PHC form. argon2, base64 and
-- fmt.Sscanf are parameters; the salt is drawn by the caller, `none` where no bytes can be read.
use Prim.Native.Char.{Char, code}
use Prim.Native.String.{[] as empty_text, ◌∷◌ as put, ◌++◌, len}
use xpace.Prelude.{
  ℕ, ◌*◌, String, Bool, true, false, not, ◌&&◌, ◌||◌, Option, none, some, List, [], ◌∷◌, length,
  ltb, ◌==◌, nat_eq, text_eq, if◌then◌else◌,
}
use xpace.Auth.Primitives.{Bytes, Crypto}

abbrev pub argon_memory : ℕ
argon_memory = 64 * 1024

abbrev pub argon_time : ℕ
argon_time = 3

abbrev pub argon_threads : ℕ
argon_threads = 2

abbrev pub argon_key_size : ℕ
argon_key_size = 32

abbrev pub put_on_first : Char → List String → List String
put_on_first c [] = put c empty_text ∷ []
put_on_first c (s ∷ rest) = put c s ∷ rest

-- strings.Split at one character.
unfoldable pub split : Char → String → List String
split at empty_text = empty_text ∷ []
split at (put c s) =
    let rest = split at s in if code c == code at then empty_text ∷ rest else put_on_first c rest

-- The text that `Sprintf` makes of the parameters above.
abbrev pub parameters : String
parameters = "m=65536,t=3,p=2"

-- The format `$%s$%s$%s$%s$%s`.
abbrev pub phc : (kind version costs salt key : String) → String
phc kind version costs salt key =
    "$" ++ (kind ++ ("$" ++ (version ++ ("$" ++ (costs ++ ("$" ++ (salt ++ ("$" ++ key))))))))

unfoldable pub hash_password : Crypto → (salt : Option Bytes) → (password : String) → Option String
hash_password c none password = none
hash_password c (some salt) password =
    if ltb (len password) 8
    then none
    else some (
        phc "argon2id" "v=19" parameters (c.raw_std_encode salt) (
          c.raw_std_encode
            (c.id_key password salt argon_time argon_memory argon_threads argon_key_size)))

abbrev pub same_bytes : Bytes → Bytes → Bool
same_bytes [] [] = true
same_bytes [] (_ ∷ _) = false
same_bytes (_ ∷ _) [] = false
same_bytes (a ∷ xs) (b ∷ ys) = a == b && same_bytes xs ys

abbrev pub compare_key :
    Crypto → (password : String) → (ℕ × ℕ × ℕ) → Option Bytes → Option Bytes → Option Bool
compare_key c password (memory, time, threads) none key = none
compare_key c password (memory, time, threads) (some salt) none = none
compare_key c password (memory, time, threads) (some salt) (some expected) =
    some (same_bytes (c.id_key password salt time memory threads (length expected)) expected)

abbrev pub compare_parts : Crypto → (password salt key : String) → Option (ℕ × ℕ × ℕ) → Option Bool
compare_parts c password salt key none = none
compare_parts c password salt key (some p) =
    compare_key c password p (c.raw_std_decode salt) (c.raw_std_decode key)

unfoldable pub verify_parts : Crypto → (password : String) → List String → Option Bool
verify_parts c password (_ ∷ kind ∷ version ∷ costs ∷ salt ∷ key ∷ []) =
    if not (kind == "argon2id") || not (version == "v=19")
    then none
    else compare_parts c password salt key (c.scan_parameters costs)
verify_parts c password _ = none

-- `none` is the error.
unfoldable pub verify_password : Crypto → (password encoded_hash : String) → Option Bool
verify_password c password encoded_hash = verify_parts c password (split "$" encoded_hash)
