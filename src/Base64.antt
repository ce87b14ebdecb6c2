-- ===== src/Base64.antt =====
-- worker/base64.ts: standard and URL-safe base64, and byte concatenation. `btoa` and `atob` are the
-- platform's, by their standard.
pub mod RoundTrip
pub mod Alphabet
pub mod Shape
use txt.Prelude.{
  ℕ, suc, ◌+◌, ◌-◌, ◌*◌, ◌/◌, ◌%◌, Bool, true, false, not, ◌&&◌, ◌||◌, Option, none, some, List, [],
  ◌∷◌, ◌++◌, map, ltb, leb, ◌==◌, if◌then◌else◌, length, replicate, keep, Text, Bytes,
}

-- The character of a value of six bits.
unfoldable pub sextet_char : ℕ → ℕ
sextet_char n =
    if ltb n 26
    then n + 65
    else if ltb n 52
    then n + 71
    else if ltb n 62
    then n - 4
    else if n == 62
    then b'+'
    else b'/'

char_sextet : ℕ → Option ℕ
char_sextet c =
    if leb b'A' c && leb c b'Z'
    then some (c - 65)
    else if leb b'a' c && leb c b'z'
    then some (c - 71)
    else if leb b'0' c && leb c b'9'
    then some (c + 4)
    else if c == b'+'
    then some 62
    else if c == b'/'
    then some 63
    else none

unfoldable pub btoa : Bytes → Text
unfolding sextet_char
btoa [] = []
btoa (a ∷ []) = sextet_char (a / 4) ∷ sextet_char (a % 4 * 16) ∷ b'=' ∷ b'=' ∷ []
btoa (a ∷ b ∷ []) =
    sextet_char (a / 4) ∷ sextet_char (a % 4 * 16 + b / 16) ∷ sextet_char (b % 16 * 4) ∷ b'=' ∷ []
btoa (a ∷ b ∷ c ∷ rest) =
    sextet_char (a / 4)
    ∷ sextet_char (a % 4 * 16 + b / 16)
    ∷ sextet_char (b % 16 * 4 + c / 64)
    ∷ sextet_char (c % 64)
    ∷ btoa rest

infixl 5 ◌>>=◌
abbrev ◌>>=◌ : {A B : Type 0} → Option A → (A → Option B) → Option B
none >>= f = none
some a >>= f = f a

two_chars : ℕ → ℕ → Option Bytes
two_chars a b = do x ← char_sextet a; y ← char_sextet b; some ((x * 4 + y / 16) ∷ [])

three_chars : ℕ → ℕ → ℕ → Option Bytes
three_chars a b c = do
  x ← char_sextet a
  y ← char_sextet b
  z ← char_sextet c
  some ((x * 4 + y / 16) ∷ (y % 16 * 16 + z / 4) ∷ [])

four_chars : ℕ → ℕ → ℕ → ℕ → Option Bytes
four_chars a b c d = do
  x ← char_sextet a
  y ← char_sextet b
  z ← char_sextet c
  w ← char_sextet d
  some ((x * 4 + y / 16) ∷ (y % 16 * 16 + z / 4) ∷ (z % 4 * 64 + w) ∷ [])

-- The last four characters of a text whose length is a multiple of four may be padded.
last_chars : ℕ → ℕ → ℕ → ℕ → Option Bytes
last_chars a b c d =
    if d == b'='
    then (if c == b'=' then two_chars a b else three_chars a b c)
    else four_chars a b c d

append_decoded : Option Bytes → Option Bytes → Option Bytes
append_decoded first rest = do x ← first; y ← rest; some (x ++ y)

decode_groups : Text → Option Bytes
decode_groups [] = some []
decode_groups (a ∷ []) = none
decode_groups (a ∷ b ∷ []) = two_chars a b
decode_groups (a ∷ b ∷ c ∷ []) = three_chars a b c
decode_groups (a ∷ b ∷ c ∷ d ∷ []) = last_chars a b c d
decode_groups (a ∷ b ∷ c ∷ d ∷ e ∷ rest) =
    append_decoded (four_chars a b c d) (decode_groups (e ∷ rest))

is_space : ℕ → Bool
is_space c = c == 9 || c == 10 || c == 12 || c == 13 || c == 32

-- `atob`: ASCII whitespace is dropped; `none` is the exception.
unfoldable pub atob : Text → Option Bytes
unfolding decode_groups two_chars three_chars four_chars last_chars append_decoded char_sextet
    is_space
atob text = decode_groups (keep (λ c. not (is_space c)) text)

unfoldable pub base64_encode : Bytes → Text
unfolding btoa
base64_encode bytes = btoa bytes

unfoldable pub base64_decode : Text → Option Bytes
unfolding atob
base64_decode value = atob value

unfoldable pub replace_char : ℕ → ℕ → Text → Text
replace_char from to = map (λ c. if c == from then to else c)

is_empty : Text → Bool
is_empty [] = true
is_empty (c ∷ cs) = false

-- `.replace(/=+$/, "")`.
unfoldable pub strip_padding : Text → Text
unfolding is_empty
strip_padding [] = []
strip_padding (c ∷ cs) =
    let rest = strip_padding cs in if (c == b'=') && is_empty rest then [] else c ∷ rest

unfoldable pub base64_url_encode : Bytes → Text
unfolding base64_encode replace_char strip_padding
base64_url_encode bytes =
    strip_padding (replace_char b'/' b'_' (replace_char b'+' b'-' (base64_encode bytes)))

unfoldable pub padding : ℕ → Text
padding n = if n % 4 == 0 then [] else replicate (4 - n % 4) b'='

unfoldable pub base64_url_decode : Text → Option Bytes
unfolding base64_decode replace_char padding
base64_url_decode segment =
    let padded = replace_char b'_' b'/' (replace_char b'-' b'+' segment) in
    base64_decode (padded ++ padding (length padded))

-- `concat(...parts)`.
unfoldable pub concat : List Bytes → Bytes
concat [] = []
concat (part ∷ parts) = part ++ concat parts
