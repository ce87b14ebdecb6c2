-- ===== src/Browser/Base32.antt =====
-- ui/src/util/base32Crockford.ts: random bytes as the characters of an object's path.
pub mod Digits
pub mod Paths
use txt.Prelude.{
  ℕ, zero, suc, ◌+◌, ◌-◌, ◌*◌, ◌/◌, ◌%◌, ◌^◌, Bool, true, false, List, [], ◌∷◌, ◌++◌, Text, Bytes,
  codes, ltb, leb, if◌then◌else◌,
}

abbrev pub alphabet : Text
alphabet = codes "0123456789abcdefghjkmnpqrstvwxyz"

-- `text[index]`, at an index inside.
unfoldable pub char_at : ℕ → Text → Text
char_at n [] = []
char_at zero (c ∷ cs) = c ∷ []
char_at (suc n) (c ∷ cs) = char_at n cs

-- `ALPHABET[bits & 31]`.
unfoldable pub symbol : ℕ → Text
unfolding char_at
symbol bits = char_at (bits % 32) alphabet

-- The `while` loop: one symbol for each five of the bits. `value` is JavaScript's 32-bit word as an
-- unsigned number: `>>` copies its sign into bits that `& 31` drops. The fuel is the number of bits.
unfoldable pub emit : ℕ → ℕ → ℕ → Text → ℕ × Text
unfolding symbol
emit zero bits value output = (bits, output)
emit (suc fuel) bits value output =
    if leb 5 bits
    then emit fuel (bits - 5) value (output ++ symbol (value / 2 ^ (bits - 5)))
    else (bits, output)

-- `(value << 8) | byte`, in 32 bits.
abbrev pub shift_in : ℕ → ℕ → ℕ
shift_in value byte = (value * 256 + byte) % 4294967296

unfoldable pub encode_from : Bytes → ℕ → ℕ → Text → Text
unfolding emit symbol
encode_from [] bits value output =
    if ltb 0 bits then output ++ symbol (value * 2 ^ (5 - bits)) else output
encode_from (byte ∷ bytes) bits value output =
    let value = shift_in value byte in
    let (left, output) = emit (bits + 8) (bits + 8) value output in
    encode_from bytes left value output

unfoldable pub to_base32_crockford : Bytes → Text
unfolding encode_from
to_base32_crockford bytes = encode_from bytes 0 0 []
