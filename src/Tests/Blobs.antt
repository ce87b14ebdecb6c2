-- ===== src/Tests/Blobs.antt =====
-- Tests of the encrypted blobs, of base 32, and of what the browser writes and reads.
use txt.Prelude.{
  ℕ, ◌+◌, ◌*◌, ◌^◌, ◌<◌, ◌≡◌, refl, true, none, some, [], ◌∷◌, ◌++◌, All-replicate, IsByte, Bytes,
  codes, length, replicate, length-replicate, arith,
}
use txt.Json.{int, pos}
use txt.Http.{accepted}
use txt.Documents
use txt.Documents.{AccessWrite, first, parse_patch, document_json}
use txt.ShareGrant.{is_valid_share_path}
use txt.Browser.Failures.{fulfilled, ◌>>=◌}
use txt.Browser.CryptoBlob.{
  Crypto, encrypt, decrypt, parse_header, header_of, derive, associated_data, aead_decrypt,
  require_size,
}
use txt.Browser.CryptoBlob.RoundTrip.{IsCrypto, decrypt-encrypt}
use txt.Browser.CryptoBlob.Format.{IsBlob, decrypt-IsBlob}
use txt.Browser.Base32.{to_base32_crockford}
use txt.Browser.Base32.Digits.{digits, number_from, to_base32_crockford-digits}
use txt.Browser.Base32.Paths.{is_valid_share_path-to_base32_crockford}
use txt.Browser.Records.{parse_document_row}
use txt.Browser.Records.RoundTrip.{as_read, parse_document_row-document_json}
use txt.Browser.SignedRequest.{OwnerSigningIdentity, body_fields_of, update_access_fields}
use txt.Browser.SignedRequest.Bodies.{parse_patch-update_access_fields}

-- A key that is all zeros, and a tag that is.
abbrev pub crypto : Crypto
crypto = record {
  key_size = 64;
  nonce_size = 64;
  tag_size = 64;
  hkdf_sha3_512 = λ ikm salt info n. some (replicate n 0);
  seal = λ key nonce ad text. some (text, replicate 64 0);
  unseal = λ key nonce ad text tag. some text;
  compress = λ bytes. bytes;
  decompress = λ bytes. some bytes;
}

crypto-IsCrypto : IsCrypto crypto
crypto-IsCrypto = record {
  key_64 = refl;
  nonce_64 = refl;
  tag_64 = refl;
  derived = λ ikm salt info n. (replicate n 0, refl, length-replicate n 0);
  sealed = λ key iv ad text hk hi. (text, replicate 64 0, refl, refl, refl);
}

decrypt-encrypt_example :
    (encrypt crypto (codes "text") (codes "key") (replicate 64 7) >>= λ blob.
    decrypt crypto blob (codes "key"))
    ≡ fulfilled (codes "text")
decrypt-encrypt_example =
    decrypt-encrypt crypto crypto-IsCrypto (codes "text") (codes "key") (replicate 64 7) refl

abbrev blob : Bytes
blob = 0x54 ∷ 0x58 ∷ 0x01 ∷ 0x00 ∷ replicate 64 7 ++ codes "text" ++ replicate 64 0

blob_decrypted : decrypt crypto blob (codes "key") ≡ fulfilled (codes "text")
unfolding decrypt parse_header header_of derive associated_data aead_decrypt require_size
blob_decrypted = refl

decrypt-IsBlob_example : IsBlob crypto blob (codes "key") (codes "text")
decrypt-IsBlob_example = decrypt-IsBlob crypto blob (codes "key") (codes "text") refl blob_decrypted

abbrev two_bytes : Bytes
two_bytes = 255 ∷ 1 ∷ []

to_base32_crockford-digits_example :
    (pad : ℕ) × (count : ℕ) × (pad < 5)
    × (pad + 8 * length two_bytes ≡ 5 * count)
    × (to_base32_crockford two_bytes ≡ digits count (number_from 0 two_bytes * 2 ^ pad))
to_base32_crockford-digits_example =
    to_base32_crockford-digits two_bytes (omega arith, (omega arith, tt))

is_valid_share_path-to_base32_crockford_example :
    is_valid_share_path (to_base32_crockford (replicate 32 201)) ≡ true
is_valid_share_path-to_base32_crockford_example =
    is_valid_share_path-to_base32_crockford (replicate 32 201)
      (All-replicate IsByte 32 201 (omega arith)) refl

abbrev row : Documents.DocumentRow
row = record {
  id = 7;
  created_at = 1;
  access_blob = some (1 ∷ 2 ∷ []);
  access_version = 3;
  access_key_wrapped = none;
}

parse_document_row-document_json_example :
    parse_document_row (document_json row) ≡ fulfilled (as_read row)
parse_document_row-document_json_example =
    parse_document_row-document_json row
      (record { octets = (omega arith, (omega arith, tt)); some_octets = λ e. cc }) tt

abbrev pub signing : OwnerSigningIdentity
signing = record {
  ticket = codes "eA.eA.AQID";
  user_handle = replicate 32 0;
  sign = λ message. replicate 132 0;
}

parse_patch-update_access_fields_example :
    parse_patch
      (int (pos 7))
      (body_fields_of signing (codes "p") (update_access_fields (first (1 ∷ []) (2 ∷ [])) 0))
    ≡ accepted (7, 0, first (1 ∷ []) (2 ∷ []))
parse_patch-update_access_fields_example =
    parse_patch-update_access_fields signing (codes "p") (first (1 ∷ []) (2 ∷ [])) 6 0
      ((omega arith, tt), (omega arith, tt))
