-- ===== src/Browser/CryptoBlob.antt =====
-- ui/src/crypto/cryptoBlob.ts, the format of an encrypted blob, and the checks of ui/src/crypto/aead.ts
-- around the WebAssembly functions that it calls.
pub mod RoundTrip
pub mod Format
use txt.Prelude.{
  ℕ, ◌+◌, ◌-◌, Bool, true, false, not, ◌&&◌, Option, none, some, [], ◌∷◌, ◌++◌, Text, Bytes, codes,
  ltb, ◌==◌, length, take, drop, utf8, if◌then◌else◌,
}
use txt.Base64.{concat}
use txt.Json.{Value}
use txt.Platform.{Platform}
use txt.Browser.Failures.{Settled, fulfilled, rejected, error, ◌>>=◌}

-- leancrypto and brotli, in WebAssembly; `none` is an exception or a code other than 0.
pub record Crypto : Type 0 where
  pub key_size : ℕ
  pub nonce_size : ℕ
  pub tag_size : ℕ
  -- The key material, the salt, the info and the output's length.
  pub hkdf_sha3_512 : Bytes → Bytes → Bytes → ℕ → Option Bytes
  -- The key, the nonce and the additional data; the ciphertext and its tag.
  pub seal : Bytes → Bytes → Bytes → Bytes → Option (Bytes × Bytes)
  pub unseal : Bytes → Bytes → Bytes → Bytes → Bytes → Option Bytes
  pub compress : Bytes → Bytes
  pub decompress : Bytes → Option Bytes

abbrev pub magic : Bytes
magic = 0x54 ∷ 0x58 ∷ []

abbrev pub version : Bytes
version = 0x01 ∷ 0x00 ∷ []

abbrev pub min_blob_len : ℕ
min_blob_len = 132

abbrev pub salt_len : ℕ
salt_len = 64

pub record Header : Type 0 where
  pub salt : Bytes
  pub ciphertext : Bytes
  pub tag : Bytes

unfoldable pub require_size : Bytes → ℕ → Text → Settled (Unit {0})
require_size bytes expected name =
    if length bytes == expected
    then fulfilled tt
    else rejected (error (name ++ codes " must be exactly so many bytes"))

or_reject : {A : Type 0} → Option A → Text → Settled A
or_reject none message = rejected (error message)
or_reject (some a) message = fulfilled a

unfoldable pub header_of : Bytes → Settled Header
header_of (a ∷ b ∷ major ∷ minor ∷ rest) =
    if not ((a == 0x54) && (b == 0x58))
    then rejected (error (codes "bad magic"))
    else if not (major == 0x01)
    then rejected (error (codes "unsupported major version"))
    else fulfilled (record {
      salt = take 64 rest;
      ciphertext = take (length rest - 64 - 64) (drop 64 rest);
      tag = drop (length rest - 64) rest;
    })
header_of _ = rejected (error (codes "bad magic"))

-- parseHeader: the offsets 4, 68 and length - 64 are those past the first four bytes.
unfoldable pub parse_header : Bytes → Settled Header
unfolding header_of
parse_header blob =
    if ltb (length blob) min_blob_len
    then rejected (error (codes "blob too short"))
    else header_of blob

unfoldable pub associated_data : Bytes → Bytes
associated_data salt = concat (magic ∷ version ∷ salt ∷ [])

module _ (crypto : Crypto) where
  unfoldable pub aead_encrypt : Bytes → Bytes → Bytes → Bytes → Settled (Bytes × Bytes)
  unfolding require_size or_reject
  aead_encrypt key nonce aad plaintext =
      require_size key crypto.key_size (codes "AEAD key") >>= λ _.
      require_size nonce crypto.nonce_size (codes "AEAD nonce") >>= λ _.
      or_reject (crypto.seal key nonce aad plaintext) (codes "lc_wasm_aead_encrypt failed")

  unfoldable pub aead_decrypt : Bytes → Bytes → Bytes → Bytes → Bytes → Settled Bytes
  unfolding require_size or_reject
  aead_decrypt key nonce aad ciphertext tag =
      require_size key crypto.key_size (codes "AEAD key") >>= λ _.
      require_size nonce crypto.nonce_size (codes "AEAD nonce") >>= λ _.
      require_size tag crypto.tag_size (codes "AEAD tag") >>= λ _.
      or_reject (crypto.unseal key nonce aad ciphertext tag) (codes "lc_wasm_aead_decrypt failed")

  unfoldable pub derive : Bytes → Bytes → Settled (Bytes × Bytes)
  unfolding or_reject
  derive ikm salt =
      or_reject (crypto.hkdf_sha3_512 ikm salt [] 128) (codes "lc_wasm_hkdf_sha3_512 failed")
      >>= λ okm. fulfilled (take 64 okm, drop 64 okm)

  -- `salt` are the 64 random bytes.
  unfoldable pub encrypt : Bytes → Bytes → Bytes → Settled Bytes
  unfolding derive associated_data aead_encrypt
  encrypt plaintext ikm salt = derive ikm salt >>= λ (key, iv).
      aead_encrypt key iv (associated_data salt) plaintext >>= λ (ciphertext, tag).
      fulfilled (concat (magic ∷ version ∷ salt ∷ ciphertext ∷ tag ∷ []))

  unfoldable pub decrypt : Bytes → Bytes → Settled Bytes
  unfolding parse_header derive associated_data aead_decrypt
  decrypt blob ikm = parse_header blob >>= λ header. derive ikm header.salt >>= λ (key, iv).
      aead_decrypt key iv (associated_data header.salt) header.ciphertext header.tag

  module _ (platform : Platform) where
    unfoldable pub encrypt_json : Value → Bytes → Bytes → Settled Bytes
    unfolding encrypt
    encrypt_json payload ikm salt =
        encrypt (crypto.compress (utf8 (platform.json_stringify payload))) ikm salt

    unfoldable pub decrypt_json : Bytes → Bytes → Settled Value
    unfolding decrypt or_reject
    decrypt_json blob ikm = decrypt blob ikm >>= λ compressed.
        or_reject (crypto.decompress compressed) (codes "brotli decompression failed") >>= λ bytes.
        or_reject (platform.json_parse (platform.text_decode bytes)) (codes "SyntaxError")
