-- ===== src/Tests/Requests.antt =====
-- Tests of a whole request: a PATCH with its ticket and its proof.
use txt.Prelude.{
  true, refl, Option, some, [], ◌∷◌, ◌++◌, codes, Text, replicate, same, if◌then◌else◌, utf8,
  split_on,
}
use txt.Base64.{base64_decode, base64_url_encode, base64_url_decode, concat}
use txt.Errors.{value}
use txt.Json.{
  Value, obj, str, Fields, entry, end, nat, pos, int, field, as_string, as_object, as_number,
  safe_integer, exceeds,
}
use txt.Http.{Request}
use txt.Platform.{Platform}
use txt.Ticket.{
  TicketSubject, full_claims, verify_ticket, verify_parts, three_parts, is_unexpired, claims_of,
}
use txt.OwnerProof.{verify_proof, check_envelope, check_bindings, verify_signature, is_one}
use txt.RequireProof.{
  ProofContext, require_proof, header, require_proof_envelope, parse_body, user_handle_of,
  envelope_of, envelope_fields, require_string, ticket_failed, proof_failed,
}
use txt.RequireProof.Soundness.{IsPossession, require_proof-IsPossession}
use txt.Api.{Inputs, handle_api}
use txt.Api.Guards.{IsGuarded, handle_api-IsGuarded}
use txt.Tests.Data.{platform_with}
use txt.Tests.Sharing.{env}

abbrev zeros_hash : Text
zeros_hash = replicate 43 b'A'

abbrev pub subject : TicketSubject
subject = record {
  sub = codes "owner@example.com";
  jti = codes "AQ";
  user_handle_hash = zeros_hash;
  sign_public_key = codes "AA";
  db_binding_hash = zeros_hash;
}

abbrev body_fields : Fields
body_fields = entry "db_prefix" (str (codes "p")) (
    entry "user_handle" (str (replicate 43 b'A' ++ codes "=")) (entry "access_version" (nat 0) end))

abbrev proof_fields : Fields
proof_fields = entry "version" (nat 1) (
    entry "expires_at" (nat 1030) (
      entry "request_id" (str (replicate 43 b'A' ++ codes "="))
        (entry "signature" (str (replicate 176 b'A')) end)))

-- The three texts that the request carries.
abbrev parse : Text → Option Value
parse text =
    if same text (codes "proof")
    then some (obj proof_fields)
    else if same text (codes "body")
    then some (obj body_fields)
    else some (obj (full_claims subject 1000))

abbrev platform : Platform
platform = platform_with parse

abbrev token : Text
token = codes "eA.eA.AQID"

abbrev request : Request
request = record {
  method = codes "PATCH";
  path = codes "/v1/documents/7/access";
  query = [];
  headers = (codes "X-Owner-Ticket", token) ∷ (codes "X-Owner-Proof", codes "proof") ∷ [];
  chunks = codes "body" ∷ [];
}

abbrev context : ProofContext
context = record { body_json = body_fields; user_handle = replicate 32 0; db_prefix = codes "p" }

require_proof-IsPossession_example : IsPossession platform request env 1001 context
unfolding require_proof header require_proof_envelope envelope_fields envelope_of same field
    as_number as_string is_one safe_integer base64_decode verify_ticket verify_parts split_on
    three_parts base64_url_decode claims_of is_unexpired exceeds ticket_failed concat parse_body
    as_object require_string user_handle_of verify_proof check_envelope check_bindings
    verify_signature proof_failed utf8 base64_url_encode full_claims
require_proof-IsPossession_example =
    require_proof-IsPossession platform request env 1001 context refl

abbrev inputs : Inputs
inputs = record {
  first_ms = 100;
  second_ms = 101;
  seconds = 1001;
  jti = [];
  salt = [];
  nonce = [];
  content_length = int (pos 0);
  jwks = value (obj end);
  r2_delete = λ path objects. (true, objects);
}

handle_api-IsGuarded_example :
    IsGuarded platform env inputs request (handle_api platform env inputs request)
handle_api-IsGuarded_example = handle_api-IsGuarded platform env inputs request
