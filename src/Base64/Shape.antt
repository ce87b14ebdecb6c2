-- ===== src/Base64/Shape.antt =====
-- The shape of a text in standard base64.
use txt.Prelude.{◌*◌, ◌/◌, ℕ, ◌+◌, ◌%◌, ◌≤◌, ◌≡◌, refl, [], ◌∷◌, Bytes, All, length, arith}
use txt.Base64.{btoa, sextet_char}

abbrev pub IsPrintable : ℕ → Type 0
IsPrintable c = (43 ≤ c) × (c ≤ 122)

sextet_char-IsPrintable : (n : ℕ) → IsPrintable (sextet_char n)
unfolding sextet_char
sextet_char-IsPrintable n = ground arith

pad : IsPrintable 61
pad = (omega arith, omega arith)

-- No character of it is white space.
pub btoa-IsPrintable : (bytes : Bytes) → All IsPrintable (btoa bytes)
unfolding btoa
btoa-IsPrintable [] = tt
btoa-IsPrintable (a ∷ []) =
    (sextet_char-IsPrintable (a / 4), (sextet_char-IsPrintable (a % 4 * 16), (pad, (pad, tt))))
btoa-IsPrintable (a ∷ b ∷ []) = (
  sextet_char-IsPrintable (a / 4),
  (
    sextet_char-IsPrintable (a % 4 * 16 + b / 16),
    (sextet_char-IsPrintable (b % 16 * 4), (pad, tt)),
  ),
)
btoa-IsPrintable (a ∷ b ∷ c ∷ rest) = (
  sextet_char-IsPrintable (a / 4),
  (
    sextet_char-IsPrintable (a % 4 * 16 + b / 16),
    (
      sextet_char-IsPrintable (b % 16 * 4 + c / 64),
      (sextet_char-IsPrintable (c % 64), btoa-IsPrintable rest),
    ),
  ),
)

-- It needs no padding.
pub length-btoa : (bytes : Bytes) → length (btoa bytes) % 4 ≡ 0
unfolding btoa
length-btoa [] = refl
length-btoa (a ∷ []) = refl
length-btoa (a ∷ b ∷ []) = refl
length-btoa (a ∷ b ∷ c ∷ rest) = omega (arith, length-btoa rest)
