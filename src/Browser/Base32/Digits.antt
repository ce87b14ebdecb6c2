-- ===== src/Browser/Base32/Digits.antt =====
-- The characters are the digits of the bytes' number in base 32, in spite of the 32-bit words.
use txt.Prelude.{
  ℕ, zero, suc, ◌+◌, ◌*◌, ◌/◌, ◌%◌, ◌^◌, ◌<◌, ◌≡◌, refl, ap, ◌∙◌, [], ◌∷◌, ◌++◌, Text, Bytes,
  IsByte, All, length, arith,
}
use txt.Browser.Base32.{symbol, emit, shift_in, encode_from, to_base32_crockford}

-- The octets as one number, the first the most significant.
abbrev pub number_from : ℕ → Bytes → ℕ
number_from n [] = n
number_from n (byte ∷ bytes) = number_from (n * 256 + byte) bytes

-- The last `k` digits of a number in base 32, as symbols.
abbrev pub digits : ℕ → ℕ → Text
digits zero n = []
digits (suc k) n = digits k (n / 32) ++ symbol n

one_more :
    (k m n word : ℕ) (output : Text)
    → output ≡ digits k m
    → n / 32 ≡ m
    → word % 32 ≡ n % 32
    → output ++ symbol word ≡ digits (suc k) n
unfolding symbol
one_more k m n word output e d w = rw (e, d, w) refl

-- One octet after the bits that are left of those before it, when `k` digits of the number are written.
one_octet :
    (bits n byte k : ℕ) (output : Text)
    → byte < 256
    → bits < 5
    → output ≡ digits k (n / 2 ^ bits)
    → (left : ℕ) × (more : ℕ) × (left < 5)
      × (left + 5 * more ≡ bits + 8 + 5 * k)
      × (emit (bits + 8) (bits + 8) (shift_in (n % 4294967296) byte) output
          ≡ (left, digits more ((n * 256 + byte) / 2 ^ left)))
unfolding emit
one_octet zero n byte k output hb h e = (
  3,
  suc k,
  omega arith,
  omega arith,
  ap (λ t. (3, t))
      (one_more k (n / 2 ^ 0) ((n * 256 + byte) / 8) (shift_in (n % 4294967296) byte / 8) output e
        (omega arith) (omega arith)),
)
one_octet (suc zero) n byte k output hb h e = (
  4,
  suc k,
  omega arith,
  omega arith,
  ap (λ t. (4, t))
      (one_more k (n / 2 ^ 1) ((n * 256 + byte) / 16) (shift_in (n % 4294967296) byte / 16) output e
        (omega arith) (omega arith)),
)
one_octet (suc (suc zero)) n byte k output hb h e = (
  0,
  (suc (suc k)),
  omega arith,
  omega arith,
  ap (λ t. (0, t))
      (one_more (suc k) ((n * 256 + byte) / 32) ((n * 256 + byte) / 1)
        (shift_in (n % 4294967296) byte / 1)
        (output ++ symbol (shift_in (n % 4294967296) byte / 32))
        (one_more k (n / 2 ^ 2) ((n * 256 + byte) / 32) (shift_in (n % 4294967296) byte / 32) output
          e (omega arith) (omega arith))
        (omega arith) (omega arith)),
)
one_octet (suc (suc (suc zero))) n byte k output hb h e = (
  1,
  (suc (suc k)),
  omega arith,
  omega arith,
  ap (λ t. (1, t))
      (one_more (suc k) ((n * 256 + byte) / 64) ((n * 256 + byte) / 2)
        (shift_in (n % 4294967296) byte / 2)
        (output ++ symbol (shift_in (n % 4294967296) byte / 64))
        (one_more k (n / 2 ^ 3) ((n * 256 + byte) / 64) (shift_in (n % 4294967296) byte / 64) output
          e (omega arith) (omega arith))
        (omega arith) (omega arith)),
)
one_octet (suc (suc (suc (suc zero)))) n byte k output hb h e = (
  2,
  (suc (suc k)),
  omega arith,
  omega arith,
  ap (λ t. (2, t))
      (one_more (suc k) ((n * 256 + byte) / 128) ((n * 256 + byte) / 4)
        (shift_in (n % 4294967296) byte / 4)
        (output ++ symbol (shift_in (n % 4294967296) byte / 128))
        (one_more k (n / 2 ^ 4) ((n * 256 + byte) / 128) (shift_in (n % 4294967296) byte / 128)
          output e (omega arith) (omega arith))
        (omega arith) (omega arith)),
)
one_octet (suc (suc (suc (suc (suc bits))))) n byte k output hb h e = absurd (omega arith)

shift_in_mod : (n byte : ℕ) → shift_in (n % 4294967296) byte ≡ (n * 256 + byte) % 4294967296
shift_in_mod n byte = omega arith

from_bits :
    (bits n k : ℕ) (bytes : Bytes) (output : Text)
    → All IsByte bytes
    → bits < 5
    → output ≡ digits k (n / 2 ^ bits)
    → (pad : ℕ) × (count : ℕ) × (pad < 5)
      × (pad + bits + 8 * length bytes + 5 * k ≡ 5 * count)
      × (encode_from bytes bits (n % 4294967296) output
          ≡ digits count (number_from n bytes * 2 ^ pad))
unfolding encode_from
from_bits zero n k [] output hb h e =
    (0, k, omega arith, omega arith, e ∙ ap (digits k) (omega arith))
from_bits (suc zero) n k [] output hb h e = (
  4,
  suc k,
  omega arith,
  omega arith,
  one_more k (n / 2 ^ 1) (n * 2 ^ 4) (n % 4294967296 * 2 ^ 4) output e (omega arith) (omega arith),
)
from_bits (suc (suc zero)) n k [] output hb h e = (
  3,
  suc k,
  omega arith,
  omega arith,
  one_more k (n / 2 ^ 2) (n * 2 ^ 3) (n % 4294967296 * 2 ^ 3) output e (omega arith) (omega arith),
)
from_bits (suc (suc (suc zero))) n k [] output hb h e = (
  2,
  suc k,
  omega arith,
  omega arith,
  one_more k (n / 2 ^ 3) (n * 2 ^ 2) (n % 4294967296 * 2 ^ 2) output e (omega arith) (omega arith),
)
from_bits (suc (suc (suc (suc zero)))) n k [] output hb h e = (
  1,
  suc k,
  omega arith,
  omega arith,
  one_more k (n / 2 ^ 4) (n * 2 ^ 1) (n % 4294967296 * 2 ^ 1) output e (omega arith) (omega arith),
)
from_bits (suc (suc (suc (suc (suc bits))))) n k [] output hb h e = absurd (omega arith)
from_bits bits n k (byte ∷ bytes) output hb h e =
    let (left, more, few, size, emitted) = one_octet bits n byte k output hb.0 h e in
    let (pad, count, small, total, coded) =
      from_bits left (n * 256 + byte) more bytes _ hb.1 few refl in
    (pad, count, small, omega (arith, total, size), rw (emitted, shift_in_mod n byte) coded)

-- For every byte string, the characters are the base-32 digits, the leading zeros included, of the
-- bytes' number shifted left by the fewest bits that make their count a multiple of five.
pub to_base32_crockford-digits :
    (bytes : Bytes)
    → All IsByte bytes
    → (pad : ℕ) × (count : ℕ) × (pad < 5)
      × (pad + 8 * length bytes ≡ 5 * count)
      × (to_base32_crockford bytes ≡ digits count (number_from 0 bytes * 2 ^ pad))
unfolding to_base32_crockford
to_base32_crockford-digits bytes h =
    let (pad, count, small, total, coded) = from_bits 0 0 0 bytes [] h (omega arith) refl in
    (pad, count, small, omega (arith, total), coded)
