-- ===== src/Browser/CryptoBlob/RoundTrip.antt =====
-- What is encrypted is decrypted.
use txt.Prelude.{
  if_cases, zero, true, ◌≤◌, ℕ, suc, ◌+◌, ◌-◌, codes, ◌≡◌, refl, some, [], ◌∷◌, ◌++◌, append-nil,
  append_assoc, Bytes, length, take, drop, length-append, take-append, drop-append, arith, ltb,
}
use txt.Base64.{concat}
use txt.Browser.Failures.{fulfilled, ◌>>=◌}
use txt.Browser.CryptoBlob.{
  Crypto, header_of, parse_header, require_size, or_reject, associated_data, derive, aead_encrypt,
  aead_decrypt, encrypt, decrypt, magic, version,
}

-- What the functions promise: the sizes of leancrypto, that a key is derived and a text sealed under
-- keys of that size, and that what is sealed is unsealed.
pub record IsCrypto (crypto : Crypto) : Type 0 where
  pub key_64 : crypto.key_size ≡ 64
  pub nonce_64 : crypto.nonce_size ≡ 64
  pub tag_64 : crypto.tag_size ≡ 64
  pub derived :
      (ikm salt info : Bytes) (n : ℕ)
      → (okm : Bytes) × (crypto.hkdf_sha3_512 ikm salt info n ≡ some okm) × (length okm ≡ n)
  pub sealed :
      (key iv ad text : Bytes)
      → length key ≡ 64
      → length iv ≡ 64
      → (ciphertext : Bytes) × (tag : Bytes) × (crypto.seal key iv ad text ≡ some (ciphertext, tag))
        × (crypto.unseal key iv ad ciphertext tag ≡ some text)
        × (length tag ≡ 64)

take-length : (n : ℕ) (xs ys : Bytes) → length xs ≡ n → take n (xs ++ ys) ≡ xs
take-length n xs ys e = rw (← e) (take-append xs ys)

drop-length : (n : ℕ) (xs ys : Bytes) → length xs ≡ n → drop n (xs ++ ys) ≡ ys
drop-length n xs ys e = rw (← e) (drop-append xs ys)

-- Sixty-four bytes, some more and again sixty-four, cut where the format cuts them.
record IsCut (salt ciphertext tag rest : Bytes) : Type 0 where
  size : length rest ≡ length ciphertext + 128
  first : take 64 rest ≡ salt
  middle : take (length rest - 64 - 64) (drop 64 rest) ≡ ciphertext
  last : drop (length rest - 64) rest ≡ tag

append-IsCut :
    (salt ciphertext tag : Bytes)
    → length salt ≡ 64
    → length tag ≡ 64
    → IsCut salt ciphertext tag (salt ++ (ciphertext ++ tag))
append-IsCut salt ciphertext tag hs ht = record {
  size = size;
  first = take-length 64 salt _ hs;
  middle =
      rw (drop-length 64 salt (ciphertext ++ tag) hs)
        (take-length _ ciphertext tag (omega (arith, size)));
  last = rw (← append_assoc salt ciphertext tag) (
      drop-length _ (salt ++ ciphertext) tag
        (omega (arith, length-append salt ciphertext, length-append (salt ++ ciphertext) tag)));
}
  where
    size : length (salt ++ (ciphertext ++ tag)) ≡ length ciphertext + 128
    size =
        omega (arith, hs, ht, length-append salt (ciphertext ++ tag), length-append ciphertext tag)

not_short : (n m : ℕ) → n ≡ m + 132 → ltb n 132 ≡ true → ⊥
not_short n m e h = ground arith

length-take : (n : ℕ) (xs : Bytes) → n ≤ length xs → length (take n xs) ≡ n
length-take zero xs h = refl
length-take (suc n) [] h = absurd (omega arith)
length-take (suc n) (x ∷ xs) h = omega (arith, length-take n xs (omega arith))

length-drop : (n : ℕ) (xs : Bytes) → length (drop n xs) ≡ length xs - n
length-drop zero xs = omega arith
length-drop (suc n) [] = omega arith
length-drop (suc n) (x ∷ xs) = omega (arith, length-drop n xs)

parse_header-blob :
    (salt ciphertext tag rest : Bytes)
    → IsCut salt ciphertext tag rest
    → parse_header (0x54 ∷ 0x58 ∷ 0x01 ∷ 0x00 ∷ rest)
      ≡ fulfilled (record { salt = salt; ciphertext = ciphertext; tag = tag })
unfolding parse_header header_of
parse_header-blob salt ciphertext tag rest cut =
    if_cases (λ r. r ≡ fulfilled (record { salt = salt; ciphertext = ciphertext; tag = tag }))
      (ltb (length (0x54 ∷ 0x58 ∷ 0x01 ∷ 0x00 ∷ rest)) 132)
      (λ short. absurd (not_short _ (length ciphertext) (omega (arith, cut.size)) short))
      (λ _. rw (cut.first, cut.middle, cut.last) refl)

module _ (crypto : Crypto) (laws : IsCrypto crypto) where
  size_ok :
      (bytes name : Bytes) (n : ℕ)
      → n ≡ 64
      → length bytes ≡ 64
      → require_size bytes n name ≡ fulfilled tt
  unfolding require_size
  size_ok bytes name n e h = ground arith

  derived_lem :
      (ikm salt : Bytes)
      → (key : Bytes) × (iv : Bytes) × (derive crypto ikm salt ≡ fulfilled (key, iv))
        × (length key ≡ 64)
        × (length iv ≡ 64)
  unfolding derive or_reject
  derived_lem ikm salt =
      let (okm, e, size) = laws.derived ikm salt [] 128 in
      (
        take 64 okm,
        drop 64 okm,
        rw e refl,
        length-take 64 okm (omega (arith, size)),
        omega (arith, length-drop 64 okm, size),
      )

  sealed_lem :
      (key iv ad text : Bytes)
      → length key ≡ 64
      → length iv ≡ 64
      → (ciphertext : Bytes) × (tag : Bytes) × (aead_encrypt crypto key iv ad text
          ≡ fulfilled (ciphertext, tag))
        × (aead_decrypt crypto key iv ad ciphertext tag ≡ fulfilled text)
        × (length tag ≡ 64)
  unfolding aead_encrypt aead_decrypt or_reject
  sealed_lem key iv ad text hk hi =
      let (ciphertext, tag, made, opened, size) = laws.sealed key iv ad text hk hi in
      let key_ok = size_ok key (codes "AEAD key") _ laws.key_64 hk in
      let nonce_ok = size_ok iv (codes "AEAD nonce") _ laws.nonce_64 hi in
      let tag_ok = size_ok tag (codes "AEAD tag") _ laws.tag_64 size in
      (
        ciphertext,
        tag,
        rw (key_ok, nonce_ok, made) refl,
        rw (key_ok, nonce_ok, tag_ok, opened) refl,
        size,
      )

  blob_of : (salt ciphertext tag : Bytes) → Bytes
  blob_of salt ciphertext tag = concat (magic ∷ version ∷ salt ∷ ciphertext ∷ tag ∷ [])

  parse_header-blob_of :
      (salt ciphertext tag : Bytes)
      → length salt ≡ 64
      → length tag ≡ 64
      → parse_header (blob_of salt ciphertext tag)
        ≡ fulfilled (record { salt = salt; ciphertext = ciphertext; tag = tag })
  unfolding blob_of concat
  parse_header-blob_of salt ciphertext tag hs ht =
      parse_header-blob salt ciphertext tag _
        (rw append-nil (append-IsCut salt ciphertext tag hs ht))

  -- What the encryption of a text makes.
  record IsSealed (text ikm salt : Bytes) : Type 0 where
    key : Bytes
    iv : Bytes
    ciphertext : Bytes
    tag : Bytes
    derived : derive crypto ikm salt ≡ fulfilled (key, iv)
    made : encrypt crypto text ikm salt ≡ fulfilled (blob_of salt ciphertext tag)
    opened : aead_decrypt crypto key iv (associated_data salt) ciphertext tag ≡ fulfilled text
    tag_64 : length tag ≡ 64

  encrypt-IsSealed : (text ikm salt : Bytes) → IsSealed text ikm salt
  unfolding encrypt blob_of
  encrypt-IsSealed text ikm salt =
      let (key, iv, derived, hk, hi) = derived_lem ikm salt in
      let (ciphertext, tag, made, opened, size) =
        sealed_lem key iv (associated_data salt) text hk hi in
      record {
        key = key;
        iv = iv;
        ciphertext = ciphertext;
        tag = tag;
        derived = derived;
        made = rw (derived, made) refl;
        opened = opened;
        tag_64 = size;
      }

  -- Every text that is encrypted under a key material, with sixty-four bytes of salt, is decrypted to
  -- itself under the same key material; neither direction fails.
  pub decrypt-encrypt :
      (text ikm salt : Bytes)
      → length salt ≡ 64
      → (encrypt crypto text ikm salt >>= λ blob. decrypt crypto blob ikm) ≡ fulfilled text
  unfolding decrypt
  decrypt-encrypt text ikm salt hs =
      let sealed = encrypt-IsSealed text ikm salt in
      rw
        (
          sealed.made,
          parse_header-blob_of salt sealed.ciphertext sealed.tag hs sealed.tag_64,
          sealed.derived,
        )
        sealed.opened
