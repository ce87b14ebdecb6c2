-- ===== src/ShareGrant/RoundTrip.antt =====
-- worker/shareGrant.ts: a grant opens under the id and the key that it was sealed with.
use txt.Prelude.{
  ℕ, ◌+◌, ◌≤◌, ltb, false, ◌≡◌, refl, ◌∙◌, some, ◌∷◌, ◌++◌, Text, Bytes, length, length-append,
  take, drop, take-append, drop-append, append-nil, append_assoc, utf8, codes, arith,
}
use txt.Base64.{concat}
use txt.Errors.{value, or_raise, plain, ◌>>=◌}
use txt.Platform.{Platform}
use txt.ShareGrant.{
  grant_version, min_len, salt_len, nonce_len, tag_len, derive_key, grant_ad, seal_grant,
  open_grant,
}

take-prefix : (n : ℕ) (xs ys : Bytes) → length xs ≡ n → take n (xs ++ ys) ≡ xs
take-prefix n xs ys e = rw (← e) (take-append xs ys)

drop-prefix : (n : ℕ) (xs ys : Bytes) → length xs ≡ n → drop n (xs ++ ys) ≡ ys
drop-prefix n xs ys e = rw (← e) (drop-append xs ys)

drop-two : (xs ys zs : Bytes) (n : ℕ) → length xs + length ys ≡ n → drop n (xs ++ (ys ++ zs)) ≡ zs
drop-two xs ys zs n e =
    rw (← append_assoc xs ys zs) (drop-prefix n (xs ++ ys) zs (length-append xs ys ∙ e))

-- What AES-GCM gives: what is encrypted decrypts under the same key, nonce and data, and the text
-- that is sealed carries its tag.
pub record GcmLaws (platform : Platform) : Type 0 where
  pub decrypts :
      (key nonce ad plaintext : Bytes)
      → platform.gcm_decrypt key nonce ad (platform.gcm_encrypt key nonce ad plaintext)
        ≡ some plaintext
  pub tagged :
      (key nonce ad plaintext : Bytes)
      → tag_len ≤ length (platform.gcm_encrypt key nonce ad plaintext)

-- The parts of an envelope of the right sizes.
open_parts :
    (platform : Platform) (hash key salt nonce sealed : Bytes)
    → length salt ≡ salt_len
    → length nonce ≡ nonce_len
    → tag_len ≤ length sealed
    → open_grant platform (grant_version ∷ (salt ++ (nonce ++ sealed))) hash key ≡ (
        or_raise
          (platform.gcm_decrypt
            (derive_key platform key salt hash)
            nonce
            (grant_ad platform hash)
            sealed)
          (plain (codes "grant AEAD tag verification failed"))
        >>= λ plaintext. value (platform.text_decode plaintext))
unfolding open_grant
open_parts platform hash key salt nonce sealed s n t = rw (
  take-prefix salt_len salt (nonce ++ sealed) s,
  drop-nonce,
  take-prefix nonce_len nonce sealed n,
  drop-sealed,
  long_enough,
)
  where
    long_enough : ltb (length (grant_version ∷ (salt ++ (nonce ++ sealed)))) min_len ≡ false
    long_enough = ground (arith, length-append salt (nonce ++ sealed), length-append nonce sealed)

    drop-nonce : drop salt_len (salt ++ (nonce ++ sealed)) ≡ nonce ++ sealed
    drop-nonce = drop-prefix salt_len salt (nonce ++ sealed) s

    drop-sealed : drop (salt_len + nonce_len) (salt ++ (nonce ++ sealed)) ≡ sealed
    drop-sealed = drop-two salt nonce sealed (salt_len + nonce_len) (omega (arith, s, n))

module _ (platform : Platform) (laws : GcmLaws platform) where
  -- Whatever path is sealed, with a salt and a nonce of the sizes that the generator is asked for, is
  -- what the grant opens to under the same share and worker key.
  pub open_grant-seal_grant :
      (path : Text) (hash key salt nonce : Bytes)
      → length salt ≡ salt_len
      → length nonce ≡ nonce_len
      → platform.text_decode (utf8 path) ≡ path
      → open_grant platform (seal_grant platform path hash key salt nonce) hash key ≡ value path
  unfolding seal_grant concat
  open_grant-seal_grant path hash key salt nonce s n decoded = rw append-nil (
      open_parts platform hash key salt nonce _ s n (laws.tagged _ _ _ _)
      ∙ rw (laws.decrypts, decoded) refl)
