-- ===== src/Ticket.antt =====
-- worker/ownerTicket.ts: the worker's own 24-hour ticket, an HS256 token.
pub mod RoundTrip
use txt.Prelude.{
  ℕ, ◌+◌, ◌*◌, leb, Bool, Option, none, some, List, [], ◌∷◌, ◌++◌, Text, Bytes, codes, utf8, same,
  split_on, if◌then◌else◌,
}
use txt.Base64.{base64_url_encode, base64_url_decode}
use txt.Json.{
  ℤ, Number, Value, str, obj, Fields, end, entry, nat, field, as_number, as_object, exceeds,
}
use txt.Errors.{
  Error, plain, ticket_verification, Try, value, raise, require, or_raise, ◌>>=◌, ◌>>◌,
}
use txt.Platform.{Platform}

abbrev pub ticket_ttl_seconds : ℕ
ticket_ttl_seconds = 24 * 60 * 60

-- The claims that the caller of issueTicket gives.
pub record TicketSubject : Type 0 where
  pub sub : Text
  pub jti : Text
  pub user_handle_hash : Text
  pub sign_public_key : Text
  pub db_binding_hash : Text

unfoldable pub full_claims : TicketSubject → ℕ → Fields
full_claims claims now = entry "v" (nat 1) (
    entry "aud" (str (codes "r2-token")) (
      entry "sub" (str claims.sub) (
        entry "jti" (str claims.jti) (
          entry "user_handle_hash" (str claims.user_handle_hash) (
            entry "sign_public_key" (str claims.sign_public_key) (
              entry "db_binding_hash" (str claims.db_binding_hash)
                (entry "iat" (nat now) (entry "exp" (nat (now + ticket_ttl_seconds)) end))))))))

ticket_header : Value
ticket_header = obj (entry "alg" (str (codes "HS256")) (entry "typ" (str (codes "JWT")) end))

-- The three parts of a token.
unfoldable pub three_parts : List Text → Option (Text × Text × Text)
three_parts (a ∷ b ∷ c ∷ []) = some (a, b, c)
three_parts _ = none

-- `typeof claims.exp !== "number" || claims.exp <= now`, the other way round.
unfoldable pub is_unexpired : Fields → ℕ → Bool
is_unexpired claims now = elim (as_number (field "exp" claims)) [
  | none ↦ Bool.false
  | some exp ↦ exceeds exp now
]

-- The claims of a parsed payload; reading `exp` of `null` is a TypeError.
unfoldable pub claims_of : Value → Try Fields
claims_of (obj fields) = value fields
claims_of Value.null = raise (plain (codes "TypeError"))
claims_of _ = value end

module _ (platform : Platform) where
  json_segment : Value → Text
  json_segment v = base64_url_encode (utf8 (platform.json_stringify v))

  unfoldable pub issue_ticket : TicketSubject → Bytes → ℕ → Text
  unfolding json_segment ticket_header
  issue_ticket claims signing_key now =
      let signing_input =
        json_segment ticket_header ++ b'.' ∷ json_segment (obj (full_claims claims now)) in
      signing_input ++ b'.' ∷ base64_url_encode (platform.hmac signing_key (utf8 signing_input))

  parse_segment : Text → Option Value
  parse_segment segment = elim (base64_url_decode segment) [
    | none ↦ none
    | some bytes ↦ platform.json_parse (platform.text_decode bytes)
  ]

  unfoldable pub verify_parts : Text × Text × Text → Bytes → ℕ → Try Fields
  unfolding parse_segment
  verify_parts (header, payload, signature_b64) signing_key now = do
    signature ← or_raise (base64_url_decode signature_b64) (plain (codes "InvalidCharacterError"))
    require (same signature (platform.hmac signing_key (utf8 (header ++ b'.' ∷ payload))))
        (ticket_verification (codes "ticket signature verification failed"))
    parsed ←
        or_raise (parse_segment payload) (ticket_verification (codes "malformed ticket payload"))
    claims ← claims_of parsed
    require (is_unexpired claims now) (ticket_verification (codes "ticket expired"))
    value claims

  unfoldable pub verify_ticket : Text → Bytes → ℕ → Try Fields
  verify_ticket token signing_key now = do
    parts ←
        or_raise (three_parts (split_on b'.' token))
          (ticket_verification (codes "malformed ticket"))
    verify_parts parts signing_key now
