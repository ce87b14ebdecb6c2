-- ===== src/Base64/Alphabet.antt =====
-- worker/base64.ts: the characters of a URL-safe encoding, and the parts of a token made of them.
use txt.Prelude.{ℕ, ◌+◌, ◌*◌, ◌/◌, ◌%◌, ◌≢◌, [], ◌∷◌, All, Text, Bytes, arith}
use txt.Base64.{sextet_char, btoa, base64_encode, replace_char, strip_padding, base64_url_encode}

abbrev pub NoDot : Text → Type 0
NoDot = All (λ c. c ≢ b'.')

sextet_char-ne-dot : (n : ℕ) → sextet_char n ≢ b'.'
unfolding sextet_char
sextet_char-ne-dot n = ground arith

btoa-NoDot : (bytes : Bytes) → NoDot (btoa bytes)
unfolding btoa
btoa-NoDot [] = tt
btoa-NoDot (a ∷ []) = (
  sextet_char-ne-dot (a / 4),
  (sextet_char-ne-dot (a % 4 * 16), (omega arith, (omega arith, tt))),
)
btoa-NoDot (a ∷ b ∷ []) = (
  sextet_char-ne-dot (a / 4),
  (sextet_char-ne-dot (a % 4 * 16 + b / 16), (sextet_char-ne-dot (b % 16 * 4), (omega arith, tt))),
)
btoa-NoDot (a ∷ b ∷ c ∷ rest) = (
  sextet_char-ne-dot (a / 4),
  (
    sextet_char-ne-dot (a % 4 * 16 + b / 16),
    (sextet_char-ne-dot (b % 16 * 4 + c / 64), (sextet_char-ne-dot (c % 64), btoa-NoDot rest)),
  ),
)

replace_char-NoDot :
    (from to : ℕ) (text : Text) → to ≢ b'.' → NoDot text → NoDot (replace_char from to text)
unfolding replace_char
replace_char-NoDot from to [] h t = tt
replace_char-NoDot from to (c ∷ cs) h t = ground (arith, replace_char-NoDot from to cs h t.1)

strip_padding-NoDot : (text : Text) → NoDot text → NoDot (strip_padding text)
unfolding strip_padding
strip_padding-NoDot [] t = tt
strip_padding-NoDot (c ∷ cs) t = ground (arith, strip_padding-NoDot cs t.1)

-- A URL-safe encoding has no dot.
pub base64_url_encode-NoDot : (bytes : Bytes) → NoDot (base64_url_encode bytes)
unfolding base64_url_encode base64_encode
base64_url_encode-NoDot bytes = strip_padding-NoDot _ (
    replace_char-NoDot b'/' b'_' _ (omega arith)
      (replace_char-NoDot b'+' b'-' _ (omega arith) (btoa-NoDot bytes)))
