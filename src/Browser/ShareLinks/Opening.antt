-- ===== src/Browser/ShareLinks/Opening.antt =====
-- A reader of a share's link gets what the owner put in it.
use txt.Prelude.{
  ℕ, ◌+◌, ◌*◌, ◌/◌, ◌%◌, ◌-◌, ◌≤◌, ◌<◌, ◌≡◌, refl, ap, ◌∙◌, true, false, ◌==◌, Option, none, some,
  if◌then◌else◌, List, [], ◌∷◌, ◌++◌, Text, Bytes, All, IsByte, codes, same, length, replicate,
  if_cases, arith,
}
use txt.Base64.{
  sextet_char, btoa, atob, base64_encode, base64_decode, replace_char, strip_padding, padding,
  base64_url_encode, base64_url_decode,
}
use txt.Base64.RoundTrip.{base64_url_decode-base64_url_encode}
use txt.ShareGrant.{all_chars}
use txt.Browser.Failures.{fulfilled}
use txt.Browser.Validation.{from_base64, to_base64, padded, decoded}
use txt.Browser.ShareLinks.{
  SearchParams, ShareMaterial, base64_url, from_base64_url, is_url_char, is_base64_url,
  decode_base64_url, reference_of, reference_in, without_hash, share_url_hash,
  parse_shared_reference,
}

-- The change of alphabet and the removal of padding.
coded : Text → Text
coded text = strip_padding (replace_char b'/' b'_' (replace_char b'+' b'-' text))

url_char : ℕ → ℕ
url_char c = let d = if c == b'+' then b'-' else c in if d == b'/' then b'_' else d

url_char-ne_pad : (n : ℕ) → (url_char (sextet_char n) == b'=') ≡ false
unfolding url_char sextet_char
url_char-ne_pad n = ground arith

is_url_char-url_char : (n : ℕ) → is_url_char (url_char (sextet_char n)) ≡ true
unfolding is_url_char url_char sextet_char
is_url_char-url_char n = ground arith

strip_padding-cons :
    (c : ℕ) (cs : Text) → (c == b'=') ≡ false → strip_padding (c ∷ cs) ≡ c ∷ strip_padding cs
unfolding strip_padding
strip_padding-cons c cs h = rw h

coded-sextet_char :
    (n : ℕ) (cs : Text) → coded (sextet_char n ∷ cs) ≡ url_char (sextet_char n) ∷ coded cs
unfolding coded replace_char url_char
coded-sextet_char n cs = strip_padding-cons _ _ (unfold url_char in url_char-ne_pad n)

one_more :
    (n : ℕ) (cs : Text)
    → all_chars is_url_char (coded cs) ≡ true
    → all_chars is_url_char (coded (sextet_char n ∷ cs)) ≡ true
unfolding all_chars
one_more n cs h = rw (coded-sextet_char n cs, is_url_char-url_char n) h

padding_gone :
    (all_chars is_url_char (coded (b'=' ∷ [])) ≡ true)
    × (all_chars is_url_char (coded (b'=' ∷ b'=' ∷ [])) ≡ true)
unfolding coded strip_padding replace_char all_chars
padding_gone = (refl, refl)

coded-btoa : (bytes : Bytes) → all_chars is_url_char (coded (btoa bytes)) ≡ true
unfolding btoa
coded-btoa [] = unfold coded strip_padding replace_char all_chars in refl
coded-btoa (a ∷ []) = one_more (a / 4) _ (one_more (a % 4 * 16) _ padding_gone.1)
coded-btoa (a ∷ b ∷ []) =
    one_more (a / 4) _ (one_more (a % 4 * 16 + b / 16) _ (one_more (b % 16 * 4) _ padding_gone.0))
coded-btoa (a ∷ b ∷ c ∷ rest) = one_more (a / 4) _ (
    one_more (a % 4 * 16 + b / 16) _
      (one_more (b % 16 * 4 + c / 64) _ (one_more (c % 64) _ (coded-btoa rest))))

first_char :
    (n : ℕ) (cs : Text)
    → all_chars is_url_char (coded cs) ≡ true
    → is_base64_url (coded (sextet_char n ∷ cs)) ≡ true
unfolding all_chars is_base64_url
first_char n cs h = rw (coded-sextet_char n cs, is_url_char-url_char n) h

is_base64_url-coded : (a : ℕ) (rest : Bytes) → is_base64_url (coded (btoa (a ∷ rest))) ≡ true
unfolding btoa
is_base64_url-coded a [] = first_char (a / 4) _ (one_more (a % 4 * 16) _ padding_gone.1)
is_base64_url-coded a (b ∷ []) =
    first_char (a / 4) _ (one_more (a % 4 * 16 + b / 16) _ (one_more (b % 16 * 4) _ padding_gone.0))
is_base64_url-coded a (b ∷ c ∷ rest) = first_char (a / 4) _ (
    one_more (a % 4 * 16 + b / 16) _
      (one_more (b % 16 * 4 + c / 64) _ (one_more (c % 64) _ (coded-btoa rest))))

-- The texts that the owner puts in a link are URL-safe.
is_base64_url-base64_url :
    (bytes : Bytes) → 0 < length bytes → is_base64_url (base64_url bytes) ≡ true
unfolding base64_url to_base64 coded
is_base64_url-base64_url [] h = ground (arith, h)
is_base64_url-base64_url (a ∷ rest) h = is_base64_url-coded a rest

-- What the worker encodes in URL-safe base64, if it has at least one byte, passes the pattern by which a
-- link's reader checks the id and the grant.
pub is_base64_url-base64_url_encode :
    (bytes : Bytes) → 0 < length bytes → is_base64_url (base64_url_encode bytes) ≡ true
unfolding base64_url_encode base64_encode base64_url to_base64
is_base64_url-base64_url_encode bytes h = is_base64_url-base64_url bytes h

padded-padding : (text : Text) → padded text ≡ text ++ padding (length text)
unfolding padded padding
padded-padding text =
    if_cases (λ p. text ++ replicate ((4 - length text % 4) % 4) b'=' ≡ text ++ p)
      (length text % 4 == 0)
      (λ h. let n : (4 - length text % 4) % 4 ≡ 0 = ground (arith, h) in rw n refl)
      (λ h.
        let n : (4 - length text % 4) % 4 ≡ 4 - length text % 4 = ground (arith, h) in rw n refl)

from_base64_url-base64_url :
    (bytes : Bytes) → All IsByte bytes → from_base64_url (base64_url bytes) ≡ fulfilled bytes
unfolding from_base64_url from_base64 decoded base64_url to_base64
from_base64_url-base64_url bytes h =
    let plain = replace_char b'_' b'/' (replace_char b'-' b'+' (base64_url bytes)) in
    let back : atob (plain ++ padding (length plain)) ≡ some bytes =
      unfold base64_url base64_url_decode base64_decode base64_url_encode base64_encode to_base64 in
      base64_url_decode-base64_url_encode bytes h in
    ap (λ text. decoded (atob text)) (padded-padding plain) ∙ ap decoded back

-- The first value that a name is paired with.
unfoldable pub first_value : Text → List (Text × Text) → Option Text
first_value name [] = none
first_value name ((key, text) ∷ pairs) = if same key name then some text else first_value name pairs

url_text-non_empty : (text : Text) → is_base64_url text ≡ true → same text [] ≡ false
unfolding is_base64_url same
url_text-non_empty [] h = cc
url_text-non_empty (c ∷ cs) h = refl

reference_in-material :
    (share : ShareMaterial) (grant : Text)
    → length share.share_id ≡ 32
    → length share.content_key ≡ 128
    → All IsByte share.share_id
    → All IsByte share.content_key
    → is_base64_url grant ≡ true
    → length grant ≤ 512
    → reference_in
        (some (base64_url share.share_id))
        (some (base64_url share.content_key))
        (some grant)
      ≡ some (record {
        id = base64_url share.share_id;
        content_key = share.content_key;
        grant = grant;
      })
unfolding reference_in decode_base64_url reference_of
reference_in-material share grant id_32 key_128 id_bytes key_bytes good small =
    let id_text = is_base64_url-base64_url share.share_id (omega (arith, id_32)) in
    let key_text = is_base64_url-base64_url share.content_key (omega (arith, key_128)) in
    rw
      (
        url_text-non_empty _ id_text,
        url_text-non_empty _ key_text,
        url_text-non_empty grant good,
        id_text,
        key_text,
        good,
        from_base64_url-base64_url share.share_id id_bytes,
        from_base64_url-base64_url share.content_key key_bytes,
      )
      (ground (arith, small, id_32, key_128))

-- The link of a share is read back, whatever the grant is that the worker gave for it, if that is a
-- URL-safe text of at most 512 characters: the reader has the share's id, its key and the grant. The
-- share has an id of 32 octets and a key of 128, and a parameter's first value is the one that is read.
pub parse_shared_reference-share_url_hash :
    (params : SearchParams) (share : ShareMaterial) (grant : Text)
    → ((pairs : List (Text × Text)) (name : Text)
        → params.get (params.to_text pairs) name ≡ first_value name pairs)
    → length share.share_id ≡ 32
    → length share.content_key ≡ 128
    → All IsByte share.share_id
    → All IsByte share.content_key
    → is_base64_url grant ≡ true
    → length grant ≤ 512
    → parse_shared_reference params (share_url_hash params share grant)
      ≡ some (record {
        id = base64_url share.share_id;
        content_key = share.content_key;
        grant = grant;
      })
unfolding parse_shared_reference share_url_hash without_hash first_value same
parse_shared_reference-share_url_hash params share grant read a b c d e f =
    rw (read _ (codes "id"), read _ (codes "key"), read _ (codes "grant"))
      (reference_in-material share grant a b c d e f)
