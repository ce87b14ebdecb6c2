-- ===== src/ShareGrant.antt =====
-- worker/shareGrant.ts and worker/shareValidation.ts: the sealed path of a shared object, and the
-- syntax of a share's path.
pub mod RoundTrip
use txt.Prelude.{
  ℕ, suc, ◌+◌, ◌==◌, ltb, not, Bool, true, false, ◌&&◌, Option, none, some, List, [], ◌∷◌, ◌++◌,
  Text, Bytes, codes, utf8, any, length, take, drop, if◌then◌else◌,
}
use txt.Base64.{concat}
use txt.Errors.{Error, plain, Try, value, raise, require, or_raise, ◌>>=◌, ◌>>◌}
use txt.Platform.{Platform}

abbrev pub grant_version : ℕ
grant_version = 1

abbrev pub salt_len : ℕ
salt_len = 32

abbrev pub nonce_len : ℕ
nonce_len = 12

abbrev pub tag_len : ℕ
tag_len = 16

abbrev pub min_len : ℕ
min_len = 1 + salt_len + nonce_len + tag_len

abbrev pub share_id_len : ℕ
share_id_len = 32

unfoldable pub all_chars : (ℕ → Bool) → Text → Bool
all_chars p [] = true
all_chars p (c ∷ cs) = p c && all_chars p cs

-- SHARE_PATH_PATTERN: 52 characters of the Crockford alphabet.
unfoldable pub is_valid_share_path : Text → Bool
unfolding all_chars
is_valid_share_path path =
    (length path == 52)
    && all_chars (λ c. any (λ a. a == c) (codes "0123456789abcdefghjkmnpqrstvwxyz")) path

first_byte : Bytes → ℕ
first_byte [] = 0
first_byte (b ∷ bs) = b

module _ (platform : Platform) where
  unfoldable pub derive_key : Bytes → Bytes → Bytes → Bytes
  derive_key share_grant_key salt id_hash =
      platform.hkdf share_grant_key salt
        (concat (utf8 (codes "txt:share-grant-key:v1") ∷ id_hash ∷ []))

  unfoldable pub grant_ad : Bytes → Bytes
  grant_ad id_hash = concat (utf8 (codes "txt:share-grant:v1") ∷ id_hash ∷ [])

  -- `salt` and `nonce` are what the random generator gives.
  unfoldable pub seal_grant : Text → Bytes → Bytes → Bytes → Bytes → Bytes
  seal_grant object_path id_hash share_grant_key salt nonce = concat (
      (grant_version ∷ [])
      ∷ salt
      ∷ nonce
      ∷ platform.gcm_encrypt (derive_key share_grant_key salt id_hash) nonce (grant_ad id_hash)
          (utf8 object_path)
      ∷ [])

  unfoldable pub open_grant : Bytes → Bytes → Bytes → Try Text
  unfolding first_byte
  open_grant envelope id_hash share_grant_key = do
    require (not (ltb (length envelope) min_len)) (plain (codes "grant too short"))
    require (first_byte envelope == grant_version) (plain (codes "unsupported grant version"))
    let salt = take salt_len (drop 1 envelope)
    let nonce = take nonce_len (drop (1 + salt_len) envelope)
    let sealed = drop (1 + salt_len + nonce_len) envelope
    plaintext ←
        or_raise
          (platform.gcm_decrypt (derive_key share_grant_key salt id_hash) nonce (grant_ad id_hash)
            sealed)
          (plain (codes "grant AEAD tag verification failed"))
    value (platform.text_decode plaintext)
