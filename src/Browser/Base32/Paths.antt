-- ===== src/Browser/Base32/Paths.antt =====
-- A path that the browser makes up is one that the worker accepts.
use txt.Prelude.{
  ℕ, zero, suc, ◌*◌, ◌%◌, ◌/◌, ◌^◌, ◌<◌, ◌≡◌, refl, ◌∙◌, Bool, true, [], ◌∷◌, ◌++◌, Text, Bytes,
  IsByte, All, any, codes, ◌==◌, length, length-append, arith,
}
use txt.Browser.Base32.{char_at, symbol, alphabet, to_base32_crockford}
use txt.Browser.Base32.Digits.{digits, number_from, to_base32_crockford-digits}
use txt.ShareGrant.{is_valid_share_path, all_chars}

char_at-all_chars :
    (p : ℕ → Bool) (n : ℕ) (cs : Text)
    → all_chars p cs ≡ true
    → n < length cs
    → (c : ℕ) × (char_at n cs ≡ c ∷ []) × (p c ≡ true)
unfolding all_chars char_at
char_at-all_chars p n [] h lt = absurd (omega arith)
char_at-all_chars p zero (c ∷ cs) h lt = (c, refl, ground arith)
char_at-all_chars p (suc n) (c ∷ cs) h lt = char_at-all_chars p n cs (ground arith) (omega arith)

all_chars-append :
    (p : ℕ → Bool) (xs ys : Text)
    → all_chars p xs ≡ true
    → all_chars p ys ≡ true
    → all_chars p (xs ++ ys) ≡ true
unfolding all_chars
all_chars-append p [] ys h k = k
all_chars-append p (x ∷ xs) ys h k = ground (arith, all_chars-append p xs ys)

is_symbol : ℕ → Bool
is_symbol c = any (λ a. a == c) (codes "0123456789abcdefghjkmnpqrstvwxyz")

-- A symbol is one character of the alphabet.
symbol_lem : (n : ℕ) → (length (symbol n) ≡ 1) × (all_chars is_symbol (symbol n) ≡ true)
unfolding symbol all_chars is_symbol
symbol_lem n =
    let (c, e, h) = char_at-all_chars is_symbol (n % 32) alphabet refl (omega arith) in
    (rw e refl, rw (e, h) refl)

digits_lem : (k n : ℕ) → (length (digits k n) ≡ k) × (all_chars is_symbol (digits k n) ≡ true)
unfolding all_chars
digits_lem zero n = (refl, refl)
digits_lem (suc k) n =
    let (long, good) = digits_lem k (n / 32) in
    let (one, fine) = symbol_lem n in
    (
      omega (arith, length-append (digits k (n / 32)) (symbol n), long, one),
      all_chars-append is_symbol (digits k (n / 32)) (symbol n) good fine,
    )

fifty_two :
    (text : Text)
    → length text ≡ 52
    → all_chars is_symbol text ≡ true
    → is_valid_share_path text ≡ true
unfolding is_valid_share_path is_symbol
fifty_two text long good = rw (long, good) refl

-- The path of a new share, 32 random bytes in base 32, passes the worker's pattern for a share's path.
pub is_valid_share_path-to_base32_crockford :
    (bytes : Bytes)
    → All IsByte bytes
    → length bytes ≡ 32
    → is_valid_share_path (to_base32_crockford bytes) ≡ true
is_valid_share_path-to_base32_crockford bytes h size =
    let (pad, count, small, total, coded) = to_base32_crockford-digits bytes h in
    let (long, good) = digits_lem count (number_from 0 bytes * 2 ^ pad) in
    let many : count ≡ 52 = omega (arith, small, total, size) in
    rw coded (fifty_two _ (long ∙ many) good)
