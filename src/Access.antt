-- ===== src/Access.antt =====
-- worker/access.ts: the worker's own verification of Cloudflare Access's token.
pub mod Inversion
pub mod Soundness
use txt.Prelude.{
  ℕ, ◌==◌, Bool, true, false, not, ◌||◌, Option, none, some, [], ◌∷◌, ◌++◌, Text, codes, utf8, same,
  split_on, if◌then◌else◌,
}
use txt.Base64.{base64_url_decode}
use txt.Json.{
  Value, arr, obj, str, int, not_a_number, pos, negsuc, Items, nil, cons, Fields, end, field,
  as_string,
}
use txt.Errors.{
  Error, plain, access_verification, Try, value, raise, require, or_raise, ◌>>=◌, ◌>>◌,
}
use txt.Platform.{Platform}
use txt.Ticket.{three_parts, is_unexpired}

pub record VerifyAccessJwtOptions : Type 0 where
  pub token : Text
  pub audience : Text
  pub issuer : Text
  pub owner_email : Text

failure : Text → Error
failure message = access_verification message

-- A property of a parsed value: reading one of `null` is a TypeError.
unfoldable pub properties : Value → Try Fields
properties (obj fields) = value fields
properties Value.null = raise (plain (codes "TypeError"))
properties _ = value end

unfoldable pub text_is : Text → Option Text → Bool
text_is expected none = false
text_is expected (some text) = same text expected

-- `Boolean(value)`.
unfoldable pub truthy : Value → Bool
truthy Value.null = false
truthy (Value.bool b) = b
truthy (Value.num (int (pos n))) = not (n == 0)
truthy (Value.num not_a_number) = false
truthy (Value.num _) = true
truthy (str text) = not (same text [])
truthy (arr items) = true
truthy (obj fields) = true

-- `!header.kid`.
pub kid_of_header : Option Value → Option Value
unfolding truthy
kid_of_header none = none
kid_of_header (some kid) = if truthy kid then some kid else none

same_bool : Bool → Bool → Bool
same_bool true b = b
same_bool false b = not b

-- `===` on values of two parses: objects and arrays are never the same, and fractions are taken to differ.
unfoldable pub same_value : Value → Value → Bool
unfolding same_bool
same_value Value.null Value.null = true
same_value (Value.bool a) (Value.bool b) = same_bool a b
same_value (Value.num (int (pos a))) (Value.num (int (pos b))) = a == b
same_value (Value.num (int (negsuc a))) (Value.num (int (negsuc b))) = a == b
same_value (str a) (str b) = same a b
same_value _ _ = false

-- isJwks: the keys of an object whose `keys` is an array.
pub jwks_keys : Value → Option Items
jwks_keys (obj fields) = elim (field "keys" fields) [ some (arr keys) ↦ some keys | _ ↦ none ]
jwks_keys _ = none

-- `key.kid`: reading it of `null` is a TypeError.
kid_of : Value → Try (Option Value)
kid_of (obj fields) = value (field "kid" fields)
kid_of Value.null = raise (plain (codes "TypeError"))
kid_of _ = value none

has_kid : Value → Option Value → Bool
unfolding same_value
has_kid kid none = false
has_kid kid (some k) = same_value k kid

-- `jwks.keys.find((key) => key.kid === header.kid)`.
pub find_jwk : Value → Items → Try (Option Value)
unfolding kid_of has_kid
find_jwk kid nil = value none
find_jwk kid (cons key keys) = do
  let rest = find_jwk kid keys
  k ← kid_of key
  if has_kid kid k then value (some key) else rest

items_include : Text → Items → Bool
items_include text nil = false
items_include text (cons v vs) = text_is text (as_string (some v)) || items_include text vs

-- `aud` is a text or an array of texts.
unfoldable pub names_audience : Option Value → Text → Bool
unfolding items_include text_is
names_audience (some (arr audiences)) audience = items_include audience audiences
names_audience aud audience = text_is audience (as_string aud)

module _ (platform : Platform) where
  decode_json_segment : Text → Option Value
  decode_json_segment segment = elim (base64_url_decode segment) [
    | none ↦ none
    | some bytes ↦ platform.json_parse (platform.text_decode bytes)
  ]

  -- The kid of an RS256 header.
  unfoldable pub check_header : Text → Try Value
  unfolding decode_json_segment text_is kid_of_header failure
  check_header header_b64 = do
    parsed ← or_raise (decode_json_segment header_b64) (failure (codes "malformed JWT header"))
    header ← properties parsed
    require (text_is (codes "RS256") (as_string (field "alg" header)))
        (failure (codes "unsupported alg"))
    or_raise (kid_of_header (field "kid" header)) (failure (codes "missing kid"))

  unfoldable pub find_key : Value → Value → Try Value
  unfolding jwks_keys find_jwk failure
  find_key jwks kid = do
    keys ← or_raise (jwks_keys jwks) (failure (codes "malformed JWKS response"))
    found ← find_jwk kid keys
    or_raise found (failure (codes "no matching key in JWKS"))

  unfoldable pub check_signature : Value → Text → Text → Text → Try (Unit {0})
  unfolding failure
  check_signature jwk header_b64 payload_b64 signature_b64 = do
    signature ← or_raise (base64_url_decode signature_b64) (plain (codes "InvalidCharacterError"))
    valid ←
        or_raise (platform.rsa_verify jwk signature (utf8 (header_b64 ++ b'.' ∷ payload_b64)))
          (failure (codes "failed to import JWKS key"))
    require valid (failure (codes "signature verification failed"))

  unfoldable pub check_claims : Fields → Text → Text → Text → ℕ → Try (Unit {0})
  unfolding names_audience text_is failure
  check_claims claims audience issuer owner_email now = do
    require (is_unexpired claims now) (failure (codes "token expired"))
    require (names_audience (field "aud" claims) audience) (failure (codes "audience mismatch"))
    require (text_is issuer (as_string (field "iss" claims))) (failure (codes "issuer mismatch"))
    require (text_is owner_email (as_string (field "email" claims)))
        (failure (codes "email is not the configured owner"))

  verify_access_parts : Text × Text × Text → Try Value → VerifyAccessJwtOptions → ℕ → Try Fields
  unfolding check_header find_key check_signature check_claims decode_json_segment failure
  verify_access_parts (header_b64, payload_b64, signature_b64) fetch_jwks options now = do
    kid ← check_header header_b64
    jwks ← fetch_jwks
    jwk ← find_key jwks kid
    check_signature jwk header_b64 payload_b64 signature_b64
    parsed ← or_raise (decode_json_segment payload_b64) (failure (codes "malformed JWT payload"))
    claims ← properties parsed
    check_claims claims options.audience options.issuer options.owner_email now
    value claims

  -- `fetch_jwks` is what the call would give, and `now` the clock in seconds.
  unfoldable pub verify_access_jwt : VerifyAccessJwtOptions → Try Value → ℕ → Try Fields
  unfolding verify_access_parts failure
  verify_access_jwt options fetch_jwks now = do
    parts ← or_raise (three_parts (split_on b'.' options.token)) (failure (codes "malformed JWT"))
    verify_access_parts parts fetch_jwks options now
