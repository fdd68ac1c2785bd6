-- ===== src/Auth/Primitives.antt =====
-- What the handlers call of Go's cryptographic and encoding packages, and of argon2: parameters of
-- the model. A list of bytes is a list of numbers below 256; the environment's keys are texts.
use xpace.Prelude.{ℕ, String, Option, List}

abbrev pub Bytes : Type 0
Bytes = List ℕ

pub record Crypto : Type 0 where
  pub hmac_sha256 : (key message : String) → Bytes
  pub hmac_sha1 : (key message : Bytes) → Bytes
  pub sha256 : String → Bytes
  pub hex : Bytes → String
  pub raw_url_encode : Bytes → String
  pub raw_url_decode : String → Option Bytes
  pub raw_std_encode : Bytes → String
  pub raw_std_decode : String → Option Bytes
  pub base32_encode : Bytes → String
  pub base32_decode : String → Option Bytes
  pub gcm_seal : (key nonce : Bytes) → String → Bytes
  pub gcm_open : (key nonce sealed : Bytes) → Option String
  pub id_key : String → (salt : Bytes) → (time memory threads size : ℕ) → Bytes
  pub scan_parameters : String → Option (ℕ × ℕ × ℕ)

-- API_SESSION_SIGNING_KEY and API_SESSION_SIGNING_KEY_PREVIOUS; an unset one is empty.
pub record Environment : Type 0 where
  pub signing_key : String
  pub previous_key : String
