-- ===== src/Ticket/RoundTrip.antt =====
-- worker/ownerTicket.ts: a ticket that the worker issued verifies until it expires.
use txt.Prelude.{
  ℕ, ◌+◌, ltb, Bool, true, false, ◌≡◌, refl, ◌∙◌, some, ◌∷◌, ◌++◌, append_assoc, All, Text, Bytes,
  codes, utf8, IsCodePoint, IsByte, utf8-IsByte, split_on-three, same_refl, if◌then◌else◌,
}
use txt.Base64.{base64_url_encode}
use txt.Base64.RoundTrip.{base64_url_decode-base64_url_encode}
use txt.Base64.Alphabet.{base64_url_encode-NoDot}
use txt.Json.{obj, Fields, exceeds, as_number, field}
use txt.Errors.{Error, value, raise, require, ticket_verification, ◌>>◌}
use txt.Platform.{Platform}
use txt.Ticket.{
  TicketSubject, full_claims, issue_ticket, verify_ticket, verify_parts, three_parts,
  ticket_ttl_seconds, is_unexpired, claims_of, parse_segment, json_segment,
}

expired :
    {A : Type 0} (fresh : Bool) (a : A) (e : Error)
    → (require fresh e >> value a) ≡ (if fresh then value a else raise e)
expired true a e = refl
expired false a e = refl

expiry :
    (claims : TicketSubject) (issued now : ℕ)
    → (require
          (is_unexpired (full_claims claims issued) now)
          (ticket_verification (codes "ticket expired"))
        >> value (full_claims claims issued))
      ≡ (if ltb now (issued + ticket_ttl_seconds)
          then value (full_claims claims issued)
          else raise (ticket_verification (codes "ticket expired")))
unfolding is_unexpired full_claims exceeds as_number field
expiry claims issued now =
    expired (ltb now (issued + ticket_ttl_seconds)) _ (ticket_verification (codes "ticket expired"))

module _ (platform : Platform) where
  parse_segment-encode :
      (payload : Bytes)
      → All IsByte payload
      → parse_segment platform (base64_url_encode payload)
        ≡ platform.json_parse (platform.text_decode payload)
  unfolding parse_segment
  parse_segment-encode payload octets =
      rw (parse_segment, base64_url_decode-base64_url_encode payload octets)

  -- The parts of a token whose signature is the right one and whose payload is the encoding of an
  -- object: only the expiry is left to check.
  verify_parts-signed :
      (header : Text) (fields : Fields) (payload key : Bytes) (now : ℕ)
      → All IsByte payload
      → ((message : Bytes) → All IsByte (platform.hmac key message))
      → platform.json_parse (platform.text_decode payload) ≡ some (obj fields)
      → verify_parts platform
          (
            header,
            base64_url_encode payload,
            base64_url_encode
                (platform.hmac key (utf8 (header ++ b'.' ∷ base64_url_encode payload))),
          )
          key
          now
        ≡ (require (is_unexpired fields now) (ticket_verification (codes "ticket expired"))
            >> value fields)
  unfolding verify_parts claims_of
  verify_parts-signed header fields payload key now octets signature_octets parses = rw (
    base64_url_decode-base64_url_encode _ (signature_octets _),
    same_refl,
    parse_segment-encode payload octets,
    parses,
  )

  -- A ticket verifies under the key that signed it to the claims that it was issued with, until its
  -- 24 hours are over, and is refused as expired from then on. The signer gives octets, and the
  -- claims survive JSON and UTF-8.
  pub verify_ticket-issue_ticket :
      (claims : TicketSubject) (key : Bytes) (issued now : ℕ)
      → ((message : Bytes) → All IsByte (platform.hmac key message))
      → All IsCodePoint (platform.json_stringify (obj (full_claims claims issued)))
      → platform.json_parse
          (platform.text_decode (utf8 (platform.json_stringify (obj (full_claims claims issued)))))
        ≡ some (obj (full_claims claims issued))
      → verify_ticket platform (issue_ticket platform claims key issued) key now ≡ (
          if ltb now (issued + ticket_ttl_seconds)
          then value (full_claims claims issued)
          else raise (ticket_verification (codes "ticket expired")))
  unfolding issue_ticket verify_ticket json_segment three_parts
  verify_ticket-issue_ticket claims key issued now signature_octets code_points parses =
      rw
        (
          append_assoc,
          split_on-three b'.' _ _ _ (base64_url_encode-NoDot _) (base64_url_encode-NoDot _)
              (base64_url_encode-NoDot _),
        )
        (verify_parts-signed _ (full_claims claims issued) _ key now (utf8-IsByte _ code_points)
            signature_octets parses
          ∙ expiry claims issued now)
