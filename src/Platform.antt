-- ===== src/Platform.antt =====
-- What the worker takes from its JavaScript runtime and does not implement: JSON, the number of a
-- text, UTF-8 decoding, WebCrypto, and the signer of the jose package. The theorems name the laws
-- that they need of these functions.
use txt.Prelude.{ℕ, Bool, Option, Text, Bytes}
use txt.Json.{Number, Value, Fields}

pub record Platform : Type 0 where
  -- `Number(text)`.
  pub number_of : Text → Number
  -- `JSON.parse`, where `none` is the exception, and `JSON.stringify`.
  pub json_parse : Text → Option Value
  pub json_stringify : Value → Text
  -- `new TextDecoder().decode(bytes)`.
  pub text_decode : Bytes → Text
  pub sha256 : Bytes → Bytes
  -- HMAC-SHA-256 of a message under a key.
  pub hmac : Bytes → Bytes → Bytes
  -- `importKey` and `verify` with RSASSA-PKCS1-v1_5 over a JWK, and with ECDSA P-521 over an SPKI.
  pub rsa_verify : Value → Bytes → Bytes → Option Bool
  pub p521_verify : Bytes → Bytes → Bytes → Option Bool
  -- HKDF-SHA-256 with the key material, the salt and the info.
  pub hkdf : Bytes → Bytes → Bytes → Bytes
  -- AES-256-GCM with the key, the nonce and the additional data; the tag stands at the end.
  pub gcm_encrypt : Bytes → Bytes → Bytes → Bytes → Bytes
  pub gcm_decrypt : Bytes → Bytes → Bytes → Bytes → Option Bytes
  -- `SignJWT` of jose with the claims, the subject, the issuer, the audience, the seconds to live
  -- and the secret.
  pub sign_jwt : Fields → Text → Text → Text → ℕ → Bytes → Text
  -- `AwsClient.sign` of aws4fetch: a GET of a URL for so many seconds, under a key id, a secret and
  -- a session token.
  pub aws_presign : Text → Text → Text → Text → ℕ → Text
