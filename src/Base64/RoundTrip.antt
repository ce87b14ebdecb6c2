-- ===== src/Base64/RoundTrip.antt =====
-- worker/base64.ts: what is encoded decodes to itself.
use txt.Prelude.{
  ℕ, suc, ◌+◌, ◌*◌, ◌/◌, ◌%◌, ◌<◌, ◌≡◌, refl, ap, ◌∙◌, false, some, [], ◌∷◌, ◌++◌, All, Text, Bytes,
  arith, keep, not, ◌==◌, if◌then◌else◌, length,
}
use txt.Base64.{
  sextet_char, char_sextet, is_space, btoa, atob, decode_groups, base64_encode, base64_decode,
  two_chars, three_chars, four_chars, last_chars, append_decoded, replace_char, strip_padding,
  padding, base64_url_encode, base64_url_decode,
}

abbrev pub IsOctet : ℕ → Type 0
IsOctet n = n < 256

char_sextet-sextet_char : (n : ℕ) → n < 64 → char_sextet (sextet_char n) ≡ some n
unfolding sextet_char char_sextet
char_sextet-sextet_char n h = ground arith

sextet_char-ne-pad : (n : ℕ) → (sextet_char n == b'=') ≡ false
unfolding sextet_char
sextet_char-ne-pad n = ground arith

is_space-sextet_char : (n : ℕ) → is_space (sextet_char n) ≡ false
unfolding sextet_char is_space
is_space-sextet_char n = ground arith

is_space-pad : is_space b'=' ≡ false
unfolding is_space
is_space-pad = refl

-- No character of an encoding is white space.
keep-btoa : (bytes : Bytes) → keep (λ c. not (is_space c)) (btoa bytes) ≡ btoa bytes
unfolding btoa
keep-btoa [] = refl
keep-btoa (a ∷ []) = simp (is_space-sextet_char, is_space-pad)
keep-btoa (a ∷ b ∷ []) = simp (is_space-sextet_char, is_space-pad)
keep-btoa (a ∷ b ∷ c ∷ rest) = simp (is_space-sextet_char, keep-btoa rest)

two_chars-btoa :
    (a : ℕ) → a < 256 → two_chars (sextet_char (a / 4)) (sextet_char (a % 4 * 16)) ≡ some (a ∷ [])
unfolding two_chars
two_chars-btoa a h =
    rw
      (
        char_sextet-sextet_char (a / 4) (omega arith),
        char_sextet-sextet_char (a % 4 * 16) (omega arith),
      )
      (ap (λ n. some (n ∷ [])) (omega arith))

three_chars-btoa :
    (a b : ℕ)
    → a < 256
    → b < 256
    → three_chars
        (sextet_char (a / 4))
        (sextet_char (a % 4 * 16 + b / 16))
        (sextet_char (b % 16 * 4))
      ≡ some (a ∷ b ∷ [])
unfolding three_chars
three_chars-btoa a b h k =
    rw
      (
        char_sextet-sextet_char (a / 4) (omega arith),
        char_sextet-sextet_char (a % 4 * 16 + b / 16) (omega arith),
        char_sextet-sextet_char (b % 16 * 4) (omega arith),
      )
      (ground arith)

four_chars-btoa :
    (a b c : ℕ)
    → a < 256
    → b < 256
    → c < 256
    → four_chars
        (sextet_char (a / 4))
        (sextet_char (a % 4 * 16 + b / 16))
        (sextet_char (b % 16 * 4 + c / 64))
        (sextet_char (c % 64))
      ≡ some (a ∷ b ∷ c ∷ [])
unfolding four_chars
four_chars-btoa a b c h k l =
    rw
      (
        char_sextet-sextet_char (a / 4) (omega arith),
        char_sextet-sextet_char (a % 4 * 16 + b / 16) (omega arith),
        char_sextet-sextet_char (b % 16 * 4 + c / 64) (omega arith),
        char_sextet-sextet_char (c % 64) (omega arith),
      )
      (ground arith)

last_chars-btoa :
    (a b c : ℕ)
    → a < 256
    → b < 256
    → c < 256
    → last_chars
        (sextet_char (a / 4))
        (sextet_char (a % 4 * 16 + b / 16))
        (sextet_char (b % 16 * 4 + c / 64))
        (sextet_char (c % 64))
      ≡ some (a ∷ b ∷ c ∷ [])
unfolding last_chars
last_chars-btoa a b c h k l = rw (sextet_char-ne-pad (c % 64)) (four_chars-btoa a b c h k l)

-- A full group stands before what decodes to the other octets.
decode_groups-four :
    (a b c : ℕ) (text : Text) (rest : Bytes)
    → a < 256
    → b < 256
    → c < 256
    → decode_groups text ≡ some rest
    → decode_groups (
        sextet_char (a / 4)
        ∷ sextet_char (a % 4 * 16 + b / 16)
        ∷ sextet_char (b % 16 * 4 + c / 64)
        ∷ sextet_char (c % 64)
        ∷ text)
      ≡ some (a ∷ b ∷ c ∷ rest)
unfolding decode_groups append_decoded
decode_groups-four a b c [] rest h k l e = last_chars-btoa a b c h k l ∙ ground arith
decode_groups-four a b c (d ∷ text) rest h k l e = rw (four_chars-btoa a b c h k l, e)

decode_groups-btoa : (bytes : Bytes) → All IsOctet bytes → decode_groups (btoa bytes) ≡ some bytes
unfolding btoa
decode_groups-btoa [] h = unfold decode_groups in refl
decode_groups-btoa (a ∷ []) h = unfold decode_groups last_chars in two_chars-btoa a h.0
decode_groups-btoa (a ∷ b ∷ []) h =
    unfold decode_groups last_chars in
    rw (sextet_char-ne-pad (b % 16 * 4)) (three_chars-btoa a b h.0 h.1.0)
decode_groups-btoa (a ∷ b ∷ c ∷ rest) h =
    decode_groups-four a b c (btoa rest) rest h.0 h.1.0 h.1.1.0 (decode_groups-btoa rest h.1.1.1)

-- Whatever octets are encoded in standard base64, decoding the text gives them back.
pub base64_decode-base64_encode :
    (bytes : Bytes) → All IsOctet bytes → base64_decode (base64_encode bytes) ≡ some bytes
unfolding base64_decode base64_encode atob
base64_decode-base64_encode bytes h = rw (keep-btoa bytes) (decode_groups-btoa bytes h)

-- The characters of the URL-safe alphabet, and back.
url_char : ℕ → ℕ
url_char c = let d = if c == b'+' then b'-' else c in if d == b'/' then b'_' else d

plain_char : ℕ → ℕ
plain_char c = let d = if c == b'-' then b'+' else c in if d == b'_' then b'/' else d

plain_char-url_char : (n : ℕ) → plain_char (url_char (sextet_char n)) ≡ sextet_char n
unfolding plain_char url_char sextet_char
plain_char-url_char n = ground arith

url_char-ne-pad : (n : ℕ) → (url_char (sextet_char n) == b'=') ≡ false
unfolding url_char sextet_char
url_char-ne-pad n = ground arith

to_url : Text → Text
to_url text = replace_char b'/' b'_' (replace_char b'+' b'-' text)

to_plain : Text → Text
to_plain text = replace_char b'_' b'/' (replace_char b'-' b'+' text)

-- An encoding with no padding.
unpadded : Bytes → Text
unpadded [] = []
unpadded (a ∷ []) = sextet_char (a / 4) ∷ sextet_char (a % 4 * 16) ∷ []
unpadded (a ∷ b ∷ []) =
    sextet_char (a / 4) ∷ sextet_char (a % 4 * 16 + b / 16) ∷ sextet_char (b % 16 * 4) ∷ []
unpadded (a ∷ b ∷ c ∷ rest) =
    sextet_char (a / 4)
    ∷ sextet_char (a % 4 * 16 + b / 16)
    ∷ sextet_char (b % 16 * 4 + c / 64)
    ∷ sextet_char (c % 64)
    ∷ unpadded rest

strip_padding-cons :
    (c : ℕ) (cs : Text) → (c == b'=') ≡ false → strip_padding (c ∷ cs) ≡ c ∷ strip_padding cs
unfolding strip_padding
strip_padding-cons c cs h = rw h

to_url-cons : (c : ℕ) (cs : Text) → to_url (c ∷ cs) ≡ url_char c ∷ to_url cs
unfolding to_url replace_char url_char
to_url-cons c cs = refl

to_plain-cons : (c : ℕ) (cs : Text) → to_plain (c ∷ cs) ≡ plain_char c ∷ to_plain cs
unfolding to_plain replace_char plain_char
to_plain-cons c cs = refl

-- One character of an encoding passes through the change of alphabet and the removal of padding.
strip-sextet_char :
    (n : ℕ) (cs : Text)
    → to_plain (strip_padding (to_url (sextet_char n ∷ cs)))
      ≡ sextet_char n ∷ to_plain (strip_padding (to_url cs))
strip-sextet_char n cs = rw (
  to_url-cons (sextet_char n) cs,
  strip_padding-cons (url_char (sextet_char n)) (to_url cs) (url_char-ne-pad n),
  to_plain-cons,
  plain_char-url_char n,
)

strip-pad : to_plain (strip_padding (to_url (b'=' ∷ []))) ≡ []
unfolding to_plain to_url strip_padding replace_char
strip-pad = refl

strip-two_pads : to_plain (strip_padding (to_url (b'=' ∷ b'=' ∷ []))) ≡ []
unfolding to_plain to_url strip_padding replace_char
strip-two_pads = refl

strip-nil : to_plain (strip_padding (to_url [])) ≡ []
unfolding to_plain to_url strip_padding replace_char
strip-nil = refl

strip-btoa : (bytes : Bytes) → to_plain (strip_padding (to_url (btoa bytes))) ≡ unpadded bytes
unfolding btoa unpadded
strip-btoa [] = strip-nil
strip-btoa (a ∷ []) = simp (strip-sextet_char, strip-two_pads)
strip-btoa (a ∷ b ∷ []) = simp (strip-sextet_char, strip-pad)
strip-btoa (a ∷ b ∷ c ∷ rest) = simp (strip-sextet_char, strip-btoa rest)

padding-add_four : (n : ℕ) → padding (suc (suc (suc (suc n)))) ≡ padding n
unfolding padding
padding-add_four n = rw (mod_four n)
  where
    mod_four : (n : ℕ) → suc (suc (suc (suc n))) % 4 ≡ n % 4
    mod_four n = omega arith

unpadded-padding :
    (bytes : Bytes) → unpadded bytes ++ padding (length (unpadded bytes)) ≡ btoa bytes
unfolding btoa unpadded
unpadded-padding [] = unfold padding in refl
unpadded-padding (a ∷ []) = unfold padding in refl
unpadded-padding (a ∷ b ∷ []) = unfold padding in refl
unpadded-padding (a ∷ b ∷ c ∷ rest) =
    rw (padding-add_four (length (unpadded rest)), unpadded-padding rest)

-- Whatever octets are encoded in URL-safe base64, without padding, decoding gives them back.
pub base64_url_decode-base64_url_encode :
    (bytes : Bytes) → All IsOctet bytes → base64_url_decode (base64_url_encode bytes) ≡ some bytes
unfolding base64_url_decode base64_url_encode base64_encode to_plain to_url
base64_url_decode-base64_url_encode bytes h =
    ap (λ text. base64_decode (text ++ padding (length text))) (strip-btoa bytes)
    ∙ ap base64_decode (unpadded-padding bytes)
    ∙ base64_decode-base64_encode bytes h
