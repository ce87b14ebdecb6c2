-- ===== src/Tests/Signing.antt =====
-- Tests of a signed request, and of a reading position that is saved.
use txt.Prelude.{
  split_on, ◌<◌, ◌≡◌, refl, Option, none, some, [], ◌∷◌, All-replicate, Text, codes, same, utf8,
  replicate, arith, if◌then◌else◌,
}
use txt.Base64.{base64_decode, base64_url_encode, base64_url_decode, concat}
use txt.Json.{Value, obj, Fields, field, as_string, as_number, exceeds}
use txt.Errors.{value}
use txt.Platform.{Platform}
use txt.Ticket.{full_claims, verify_ticket, verify_parts, three_parts, claims_of, is_unexpired}
use txt.Documents.{clear}
use txt.OwnerProof.{CanonicalProofInput, build_canonical_proof_bytes}
use txt.RequireProof.{require_proof}
use txt.Browser.Failures.{fulfilled}
use txt.Browser.Validation.{to_base64}
use txt.Browser.SignedRequest.{
  ProofEnvelope, envelope_fields, SignedProofRequest, canonical_proof_bytes, body_fields_of,
  body_of, update_access_fields, access_write_body, with_field, sign_owner_proof, proofed_request,
}
use txt.Browser.SignedRequest.Acceptance.{
  IsMatched, IsReadBack, canonical_proof_bytes-build_canonical_proof_bytes, signed_request_passes,
}
use txt.Tests.Data.{platform_with}
use txt.Tests.Sharing.{env}
use txt.Tests.Requests.{subject}
use txt.Tests.Blobs.{signing}

abbrev sent_fields : Fields
sent_fields = update_access_fields clear 0

abbrev envelope : ProofEnvelope
envelope = record {
  expires_at = 1045;
  request_id = to_base64 (replicate 32 1);
  signature = to_base64 (replicate 132 0);
}

-- Two texts are parsed, and written: the body and the envelope; any other is the ticket's payload.
abbrev parse : Text → Option Value
parse text =
    if same text (codes "e")
    then some (obj (envelope_fields envelope))
    else if same text (codes "b")
    then some (obj (body_fields_of signing (codes "p") sent_fields))
    else some (obj (full_claims subject 1000))

abbrev stringify : Value → Text
stringify (obj fields) = elim (field "signature" fields) [ none ↦ codes "b" | some v ↦ codes "e" ]
stringify v = []

abbrev platform : Platform
platform = record (platform_with parse) { json_stringify = stringify }

abbrev input : CanonicalProofInput
input = record {
  exact_compact_ticket = codes "t";
  user_handle = replicate 32 0;
  expires_at = 1045;
  request_id = replicate 32 1;
  db_prefix = codes "p";
  method = codes "PATCH";
  path = codes "/v1/documents/7/access";
  body = codes "b";
}

canonical_proof_bytes-build_canonical_proof_bytes_example :
    canonical_proof_bytes platform
      (codes "t")
      (replicate 32 0)
      1045
      (replicate 32 1)
      (codes "p")
      (codes "PATCH")
      (codes "/v1/documents/7/access")
      (codes "b")
    ≡ build_canonical_proof_bytes platform input
canonical_proof_bytes-build_canonical_proof_bytes_example =
    canonical_proof_bytes-build_canonical_proof_bytes platform input

matched : IsMatched platform signing (codes "p") (full_claims subject 1000)
unfolding full_claims field as_string base64_url_encode base64_url_decode
matched = record {
  key_b64 = codes "AA";
  key = 0 ∷ [];
  handle_size = refl;
  handle_octets = All-replicate (λ b. b < 256) 32 0 (omega arith);
  owner_bound = refl;
  prefix_bound = refl;
  key_claimed = refl;
  key_decoded = refl;
  signs = λ message. refl;
  signature_octets = λ message. All-replicate (λ b. b < 256) 132 0 (omega arith);
}

abbrev signed : SignedProofRequest
signed = record { envelope = envelope; body = codes "b" }

made :
    sign_owner_proof platform signing
      (codes "p")
      (codes "PATCH")
      (codes "/v1/documents/7/access")
      sent_fields
      1000999
      (replicate 32 1)
    ≡ fulfilled signed
unfolding sign_owner_proof body_of body_fields_of update_access_fields access_write_body with_field
    field utf8
made = refl

body_back : IsReadBack platform (body_fields_of signing (codes "p") sent_fields)
unfolding body_fields_of update_access_fields access_write_body with_field field utf8 same
body_back = record { parsed = refl; decoded = refl; some_text = λ e. cc; some_octets = λ e. cc }

envelope_back : IsReadBack platform (envelope_fields envelope)
unfolding envelope_fields field utf8 same
envelope_back = record { parsed = refl; decoded = refl; some_text = λ e. cc; some_octets = λ e. cc }

key_configured : base64_decode env.ticket_signing_key ≡ some (codes "key")
unfolding base64_decode
key_configured = refl

ticket_verified :
    verify_ticket platform signing.ticket (codes "key") 1001 ≡ value (full_claims subject 1000)
unfolding verify_ticket verify_parts three_parts claims_of is_unexpired split_on base64_url_decode
    same utf8 full_claims field as_number exceeds
ticket_verified = refl

signed_request_passes_example :
    require_proof platform
      (proofed_request platform signing
        (codes "PATCH")
        (codes "/v1/documents/7/access")
        (codes "b" ∷ [])
        signed)
      env
      1001
    ≡ value (record {
      body_json = body_fields_of signing (codes "p") sent_fields;
      user_handle = replicate 32 0;
      db_prefix = codes "p";
    })
unfolding concat
signed_request_passes_example =
    signed_request_passes platform signing (codes "p") (codes "PATCH")
      (codes "/v1/documents/7/access") sent_fields 1000999 (replicate 32 1)
      (full_claims subject 1000) (codes "key") env 1001 signed (codes "b" ∷ []) matched
      key_configured ticket_verified (λ e. cc) refl
      (All-replicate (λ b. b < 256) 32 1 (omega arith)) (omega arith) (omega arith) (omega arith)
      body_back envelope_back made refl
