-- ===== src/Prelude/Chars.antt =====
-- Texts and byte strings as lists of numbers: code points in a text, octets in a byte string.
use Prim.Native.Nat.{ℕ, ◌+◌, ◌/◌, ◌%◌, ◌<◌}
use Prim.Native.Char.{code}
use Prim.Native.String.{String}
use mathlib.Core.Path.{◌≡◌, refl, ap, ◌∙◌}
use mathlib.Core.Logic.{◌≢◌}
use mathlib.Core.Bool.{Bool, true, false, ◌&&◌, ◌||◌}
use mathlib.Core.List.{List, [], ◌∷◌, ◌++◌, append-nil, append_assoc}
use native.Mathlib.Omega.{arith}
use txt.Prelude.Lists.{All, All-append}
use txt.Prelude.Tests.{ltb, leb, ◌==◌, if◌then◌else◌}

abbrev pub Text : Type 0
Text = List ℕ

abbrev pub Bytes : Type 0
Bytes = List ℕ

-- The code points of a literal. `String` has its own `[]` and `∷`.
abbrev pub codes : String → Text
codes String.[] = []
codes (String.◌∷◌ c s) = code c ∷ codes s

-- `===` on texts, and on the base64 forms of byte strings.
unfoldable pub same : List ℕ → List ℕ → Bool
same [] [] = true
same [] (y ∷ ys) = false
same (x ∷ xs) [] = false
same (x ∷ xs) (y ∷ ys) = (x == y) && same xs ys

pub same_sound : (xs ys : List ℕ) → same xs ys ≡ true → xs ≡ ys
unfolding same
same_sound [] [] h = refl
same_sound [] (y ∷ ys) h = cc
same_sound (x ∷ xs) [] h = cc
same_sound (x ∷ xs) (y ∷ ys) h = ground (arith, same_sound xs ys)

pub same_refl : (xs : List ℕ) → same xs xs ≡ true
unfolding same
same_refl [] = refl
same_refl (x ∷ xs) = ground (arith, same_refl xs)

unfoldable pub starts_with : Text → Text → Bool
starts_with s [] = true
starts_with [] (y ∷ ys) = false
starts_with (x ∷ xs) (y ∷ ys) = (x == y) && starts_with xs ys

-- The lower case of ASCII letters, as header names and patterns with the `i` flag are compared.
unfoldable pub ascii_lower : Text → Text
ascii_lower [] = []
ascii_lower (c ∷ cs) = (if leb b'A' c && leb c b'Z' then c + 32 else c) ∷ ascii_lower cs

-- `haystack.includes(needle)`.
unfoldable pub includes : Text → Text → Bool
unfolding starts_with
includes [] needle = starts_with [] needle
includes (x ∷ xs) needle = starts_with (x ∷ xs) needle || includes xs needle

-- The UTF-8 octets of one code point; a lone surrogate is written as U+FFFD.
unfoldable pub utf8_char : ℕ → Bytes
utf8_char c =
    if ltb c 0x80
    then c ∷ []
    else if ltb c 0x800
    then (0xC0 + c / 64) ∷ (0x80 + c % 64) ∷ []
    else if leb 0xD800 c && leb c 0xDFFF
    then 0xEF ∷ 0xBF ∷ 0xBD ∷ []
    else if ltb c 0x10000
    then (0xE0 + c / 4096) ∷ (0x80 + c / 64 % 64) ∷ (0x80 + c % 64) ∷ []
    else (0xF0 + c / 262144) ∷ (0x80 + c / 4096 % 64) ∷ (0x80 + c / 64 % 64) ∷ (0x80 + c % 64) ∷ []

-- `new TextEncoder().encode(text)`.
unfoldable pub utf8 : Text → Bytes
unfolding utf8_char
utf8 [] = []
utf8 (c ∷ cs) = utf8_char c ++ utf8 cs

-- `text.split(separator)` for a separator of one character.
split_from : ℕ → Text → Text → List Text
split_from sep cur [] = cur ∷ []
split_from sep cur (c ∷ cs) =
    if c == sep then cur ∷ split_from sep [] cs else split_from sep (cur ++ c ∷ []) cs

unfoldable pub split_on : ℕ → Text → List Text
unfolding split_from
split_on sep text = split_from sep [] text

-- The first part of a text ends at its first separator.
split_from-part :
    (sep : ℕ) (cur part rest : Text)
    → All (λ c. c ≢ sep) part
    → split_from sep cur (part ++ sep ∷ rest) ≡ (cur ++ part) ∷ split_from sep [] rest
unfolding split_from
split_from-part sep cur [] rest h = rw append-nil (ground arith)
split_from-part sep cur (c ∷ cs) rest h =
    ground (arith, split_from-part sep (cur ++ c ∷ []) cs rest h.1, append_assoc cur (c ∷ []) cs)

split_from-last :
    (sep : ℕ) (cur part : Text)
    → All (λ c. c ≢ sep) part
    → split_from sep cur part ≡ (cur ++ part) ∷ []
unfolding split_from
split_from-last sep cur [] h = rw append-nil refl
split_from-last sep cur (c ∷ cs) h =
    ground (arith, split_from-last sep (cur ++ c ∷ []) cs h.1, append_assoc cur (c ∷ []) cs)

-- Three parts with no separator of their own are what a split of their join gives.
pub split_on-three :
    (sep : ℕ) (a b c : Text)
    → All (λ x. x ≢ sep) a
    → All (λ x. x ≢ sep) b
    → All (λ x. x ≢ sep) c
    → split_on sep (a ++ sep ∷ (b ++ sep ∷ c)) ≡ a ∷ b ∷ c ∷ []
unfolding split_on
split_on-three sep a b c ha hb hc =
    split_from-part sep [] a (b ++ sep ∷ c) ha
    ∙ ap (λ ts. a ∷ ts)
        (split_from-part sep [] b c hb ∙ ap (λ ts. b ∷ ts) (split_from-last sep [] c hc))

abbrev pub IsCodePoint : ℕ → Type 0
IsCodePoint c = c < 0x110000

abbrev pub IsByte : ℕ → Type 0
IsByte n = n < 256

utf8_char-IsByte : (c : ℕ) → IsCodePoint c → All IsByte (utf8_char c)
unfolding utf8_char
utf8_char-IsByte c h = ground arith

-- The encoding of a text is a byte string.
pub utf8-IsByte : (text : Text) → All IsCodePoint text → All IsByte (utf8 text)
unfolding utf8
utf8-IsByte [] h = tt
utf8-IsByte (c ∷ cs) h =
    All-append IsByte (utf8_char c) (utf8 cs) (utf8_char-IsByte c h.0) (utf8-IsByte cs h.1)
