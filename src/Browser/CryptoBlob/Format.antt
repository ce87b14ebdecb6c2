-- ===== src/Browser/CryptoBlob/Format.antt =====
-- Which blobs are decrypted.
use txt.Base64.{concat}
use txt.Prelude.{
  ap, sym, subst, suc, append-nil, ℕ, ◌≤◌, ◌≡◌, refl, Option, none, some, [], ◌∷◌, Bytes, length,
  take, drop, arith, ◌-◌,
}
use txt.Browser.Failures.{Settled, fulfilled, rejected, ◌>>=◌}
use txt.Browser.CryptoBlob.{
  Crypto, Header, header_of, parse_header, require_size, or_reject, associated_data, derive,
  aead_decrypt, decrypt,
}

-- A blob of the format, of which the tag vouches for the text and for the whole stored header: the magic,
-- the version and the salt.
pub record IsBlob (crypto : Crypto) (blob ikm text : Bytes) : Type 0 where
  pub magic_and_major : take 3 blob ≡ 0x54 ∷ 0x58 ∷ 0x01 ∷ []
  pub long : 132 ≤ length blob
  pub key : Bytes
  pub iv : Bytes
  pub derived : derive crypto ikm (take 64 (drop 4 blob)) ≡ fulfilled (key, iv)
  pub authentic :
      crypto.unseal key iv
        (take 68 blob)
        (take (length blob - 132) (drop 68 blob))
        (drop (length blob - 64) blob)
      ≡ some text

header_of-fulfilled :
    (blob : Bytes) (h : Header)
    → header_of blob ≡ fulfilled h
    → (minor : ℕ) × (rest : Bytes) × (blob ≡ 0x54 ∷ 0x58 ∷ 0x01 ∷ minor ∷ rest)
      × (h ≡ record {
        salt = take 64 rest;
        ciphertext = take (length rest - 64 - 64) (drop 64 rest);
        tag = drop (length rest - 64) rest;
      })
unfolding header_of
header_of-fulfilled [] h e = cc
header_of-fulfilled (a ∷ []) h e = cc
header_of-fulfilled (a ∷ b ∷ []) h e = cc
header_of-fulfilled (a ∷ b ∷ major ∷ []) h e = cc
header_of-fulfilled (a ∷ b ∷ major ∷ minor ∷ rest) h e = (minor, rest, ground arith, ground arith)

parse_header-fulfilled :
    (blob : Bytes) (h : Header)
    → parse_header blob ≡ fulfilled h
    → (header_of blob ≡ fulfilled h) × (132 ≤ length blob)
unfolding parse_header
parse_header-fulfilled blob h e = ground arith

bind_fulfilled :
    {A B : Type 0} (m : Settled A) (f : A → Settled B) (b : B)
    → (m >>= f) ≡ fulfilled b
    → (a : A) × (m ≡ fulfilled a) × (f a ≡ fulfilled b)
bind_fulfilled (fulfilled a) f b e = (a, refl, e)
bind_fulfilled (rejected x) f b e = cc

or_reject-fulfilled :
    {A : Type 0} (o : Option A) (message : Bytes) (a : A)
    → or_reject o message ≡ fulfilled a
    → o ≡ some a
unfolding or_reject
or_reject-fulfilled none message a e = cc
or_reject-fulfilled (some b) message a e = cc

module _ (crypto : Crypto) where
  aead_decrypt-fulfilled :
      (key iv ad ciphertext tag text : Bytes)
      → aead_decrypt crypto key iv ad ciphertext tag ≡ fulfilled text
      → crypto.unseal key iv ad ciphertext tag ≡ some text
  unfolding aead_decrypt require_size or_reject
  aead_decrypt-fulfilled key iv ad ciphertext tag text e = ground arith

  -- The pieces of the format, by the offsets in the whole blob.
  cut-IsBlob :
      (minor : ℕ) (rest ikm text key iv : Bytes)
      → minor ≡ 0
      → 128 ≤ length rest
      → derive crypto ikm (take 64 rest) ≡ fulfilled (key, iv)
      → crypto.unseal key iv
          (associated_data (take 64 rest))
          (take (length rest - 64 - 64) (drop 64 rest))
          (drop (length rest - 64) rest)
        ≡ some text
      → IsBlob crypto (0x54 ∷ 0x58 ∷ 0x01 ∷ minor ∷ rest) ikm text
  unfolding associated_data concat
  cut-IsBlob minor rest ikm text key iv zero_minor long made opened =
      let blob : Bytes = 0x54 ∷ 0x58 ∷ 0x01 ∷ minor ∷ rest in
      let tag_at : length blob - 64 ≡ suc (suc (suc (suc (length rest - 64)))) =
        omega (arith, long) in
      let size : length blob - 132 ≡ length rest - 64 - 64 = omega arith in
      record {
        magic_and_major = refl;
        long = omega (arith, long);
        key = key;
        iv = iv;
        derived = made;
        authentic = rw (zero_minor, tag_at, size) (rw append-nil at opened);
      }

  -- Whatever is decrypted of the minor version 0, which is the one that is written, is a blob of at least
  -- 132 bytes with the magic and the major version 1, whose tag, its last 64 bytes, verifies over the
  -- ciphertext and the stored header, its first 68 bytes, under the key derived from the header's salt.
  pub decrypt-IsBlob :
      (blob ikm text : Bytes)
      → take 1 (drop 3 blob) ≡ 0 ∷ []
      → decrypt crypto blob ikm ≡ fulfilled text
      → IsBlob crypto blob ikm text
  unfolding decrypt
  decrypt-IsBlob blob ikm text minor_0 e =
      let (h, parsed, e1) = bind_fulfilled (parse_header blob) _ text e in
      let (read, long) = parse_header-fulfilled blob h parsed in
      let (minor, rest, begins, cut) = header_of-fulfilled blob h read in
      let ((key, iv), derived, e2) = bind_fulfilled (derive crypto ikm h.salt) _ text e1 in
      subst (λ b. IsBlob crypto b ikm text) (sym begins)
        (cut-IsBlob minor rest ikm text key iv
          (ground (arith, subst (λ b. take 1 (drop 3 b) ≡ 0 ∷ []) begins minor_0))
          (ground (arith, ap length begins)) (rw cut at derived)
          (aead_decrypt-fulfilled _ _ _ _ _ text (rw cut at e2)))
