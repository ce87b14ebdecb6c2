-- ===== src/Browser/SignedRequest/Acceptance.antt =====
-- A request that the browser signs passes the worker's proof of possession.
use txt.Prelude.{
  ℕ, ◌+◌, ◌/◌, ◌%◌, ◌^◌, ◌<◌, ◌≤◌, ◌≡◌, ◌≢◌, refl, ap, subst, sym, ◌∙◌, true, some, List, [], ◌∷◌,
  Text, Bytes, All, utf8, length, same, ◌==◌, arith, if◌then◌else◌,
}
use txt.Base64.{base64_decode, base64_url_decode, base64_url_encode, concat}
use txt.Json.{str, int, pos, obj, Fields, field, as_string, as_number, safe_integer}
use txt.Errors.{value}
use txt.Platform.{Platform}
use txt.Http.{Env}
use txt.Ticket.{verify_ticket}
use txt.OwnerProof
use txt.OwnerProof.Soundness.{IsAuthentic}
use txt.OwnerProof.Completeness.{verify_proof_of_IsAuthentic}
use txt.OwnerProof.{
  CanonicalProofInput, build_canonical_proof_bytes, check_envelope, check_bindings,
  verify_signature, verify_proof, claim_is, big_endian,
}
use txt.RequireProof.Completeness.{
  require_proof_of_IsPresented, parse_body_ok, require_proof_envelope_ok, user_handle_of_ok,
}
use txt.Browser.SignedRequest.Lookups.{field-with_field, field-with_field-other}
use txt.RequireProof.{require_proof, header, envelope_of}
use txt.Browser.Failures.{Failure, fulfilled, rejected}
use txt.Browser.Validation.{to_base64}
use txt.Browser.SignedRequest.{
  p521_signature_bytes, u64be, with_field, ProofEnvelope, envelope_fields, SignedProofRequest,
  OwnerSigningIdentity, canonical_proof_bytes, body_fields_of, body_of, sign_owner_proof,
  proofed_request,
}
use txt.Browser.SignedRequest.Bodies.{base64_decode-to_base64}

u64be_lem : (n : ℕ) → u64be n ≡ OwnerProof.u64be n
unfolding u64be OwnerProof.u64be big_endian
u64be_lem n =
    let last : n % 256 ≡ n / 256 ^ 0 % 256 = omega arith in
    ap
      (λ b.
        (n / 256 ^ 7 % 256)
        ∷ (n / 256 ^ 6 % 256)
        ∷ (n / 256 ^ 5 % 256)
        ∷ (n / 256 ^ 4 % 256)
        ∷ (n / 256 ^ 3 % 256)
        ∷ (n / 256 ^ 2 % 256)
        ∷ (n / 256 % 256)
        ∷ b
        ∷ [])
      last

-- The browser signs the very bytes that the worker checks, whatever the request: the two files build
-- the same canonical bytes.
pub canonical_proof_bytes-build_canonical_proof_bytes :
    (platform : Platform) (input : CanonicalProofInput)
    → canonical_proof_bytes platform input.exact_compact_ticket input.user_handle input.expires_at
        input.request_id input.db_prefix input.method input.path input.body
      ≡ build_canonical_proof_bytes platform input
unfolding canonical_proof_bytes build_canonical_proof_bytes
canonical_proof_bytes-build_canonical_proof_bytes platform input =
    rw (u64be_lem input.expires_at) refl

-- The owner's identity, and the claims of the ticket that the worker issued for it.
pub record IsMatched (platform : Platform) (signing : OwnerSigningIdentity) (db_prefix : Text)
    (claims : Fields) : Type 0 where
  pub key_b64 : Text
  pub key : Bytes
  pub handle_size : length signing.user_handle ≡ 32
  pub handle_octets : All (λ b. b < 256) signing.user_handle
  pub owner_bound :
      as_string (field "user_handle_hash" claims)
      ≡ some (base64_url_encode (platform.sha256 signing.user_handle))
  pub prefix_bound :
      as_string (field "db_binding_hash" claims)
      ≡ some (base64_url_encode (platform.sha256 (utf8 db_prefix)))
  pub key_claimed : as_string (field "sign_public_key" claims) ≡ some key_b64
  pub key_decoded : base64_url_decode key_b64 ≡ some key
  pub signs :
      (message : Bytes) → platform.p521_verify key (signing.sign message) message ≡ some true
  pub signature_octets : (message : Bytes) → All (λ b. b < 256) (signing.sign message)

-- JSON of an object and its octets in UTF-8 are read back, and are not empty.
pub record IsReadBack (platform : Platform) (fields : Fields) : Type 0 where
  pub parsed : platform.json_parse (platform.json_stringify (obj fields)) ≡ some (obj fields)
  pub decoded :
      platform.text_decode (utf8 (platform.json_stringify (obj fields)))
      ≡ platform.json_stringify (obj fields)
  pub some_text : platform.json_stringify (obj fields) ≢ []
  pub some_octets : utf8 (platform.json_stringify (obj fields)) ≢ []

sized :
    (n : ℕ) (signed : SignedProofRequest) (envelope : ProofEnvelope) (body : Bytes) (e : Failure)
    → (if n == p521_signature_bytes
        then fulfilled (record { envelope = envelope; body = body })
        else rejected e)
      ≡ fulfilled signed
    → (n ≡ 132) × (record { envelope = envelope; body = body } ≡ signed)
sized n signed envelope body e h = ground arith

module _ (platform : Platform) (signing : OwnerSigningIdentity) (db_prefix method path : Text)
    (fields : Fields) (now_ms : ℕ) (request_id : Bytes) where
  expires_at : ℕ
  expires_at = now_ms / 1000 + 45

  signature : Bytes
  signature = signing.sign (
      canonical_proof_bytes platform signing.ticket signing.user_handle expires_at request_id
        db_prefix method path (body_of platform signing db_prefix fields))

  envelope : ProofEnvelope
  envelope = record {
    expires_at = expires_at;
    request_id = to_base64 request_id;
    signature = to_base64 signature;
  }

  sign_owner_proof-fulfilled :
      (signed : SignedProofRequest)
      → sign_owner_proof platform signing db_prefix method path fields now_ms request_id
        ≡ fulfilled signed
      → (length signature ≡ 132)
        × (record { envelope = envelope; body = body_of platform signing db_prefix fields }
            ≡ signed)
  unfolding sign_owner_proof signature envelope expires_at
  sign_owner_proof-fulfilled signed h = sized (length signature) signed envelope _ _ h

  wire : OwnerProof.ProofEnvelope
  wire = record {
    version = int (pos 1);
    expires_at = int (pos expires_at);
    request_id = to_base64 request_id;
    signature = to_base64 signature;
  }

  envelope_of-wire :
      expires_at < 9007199254740992 → envelope_of (envelope_fields envelope) ≡ some wire
  unfolding envelope_of envelope_fields field envelope wire as_number as_string safe_integer
  envelope_of-wire small = ground arith

  input : Fields → OwnerProof.VerifyProofInput
  input claims = record {
    ticket_claims = claims;
    exact_compact_ticket = signing.ticket;
    proof = wire;
    user_handle = signing.user_handle;
    db_prefix = db_prefix;
    method = method;
    path = path;
    body = body_of platform signing db_prefix fields;
  }

  IsAuthentic-input :
      (claims : Fields) (now : ℕ)
      → IsMatched platform signing db_prefix claims
      → length signature ≡ 132
      → length request_id ≡ 32
      → All (λ b. b < 256) request_id
      → now < expires_at
      → expires_at ≤ now + 60
      → IsAuthentic platform (input claims) now
  unfolding input wire
  IsAuthentic-input claims now m size rid_size rid after near = record {
    expires_at = expires_at;
    signature = signature;
    request_id = request_id;
    key_b64 = m.key_b64;
    key = m.key;
    version_one = refl;
    names_expiry = refl;
    not_expired = after;
    within_a_minute = near;
    signature_decoded =
        base64_decode-to_base64 signature (unfold signature in m.signature_octets _);
    signature_size = size;
    request_id_decoded = base64_decode-to_base64 request_id rid;
    request_id_size = rid_size;
    user_handle_size = m.handle_size;
    owner_bound = m.owner_bound;
    prefix_bound = m.prefix_bound;
    key_claimed = m.key_claimed;
    key_decoded = m.key_decoded;
    signed = signed_canonical;
  }
    where
      canonical : CanonicalProofInput
      canonical = record {
        exact_compact_ticket = signing.ticket;
        user_handle = signing.user_handle;
        expires_at = expires_at;
        request_id = request_id;
        db_prefix = db_prefix;
        method = method;
        path = path;
        body = body_of platform signing db_prefix fields;
      }

      signed_canonical :
          platform.p521_verify m.key signature (build_canonical_proof_bytes platform canonical)
          ≡ some true
      signed_canonical =
          rw (← canonical_proof_bytes-build_canonical_proof_bytes platform canonical)
            (unfold signature in m.signs _)

  verify_proof-input :
      (claims : Fields) (now : ℕ)
      → IsMatched platform signing db_prefix claims
      → length signature ≡ 132
      → length request_id ≡ 32
      → All (λ b. b < 256) request_id
      → now < expires_at
      → expires_at ≤ now + 60
      → expires_at < 9007199254740992
      → verify_proof platform (input claims) now ≡ value tt
  unfolding IsAuthentic-input
  verify_proof-input claims now m size rid_size rid after near small =
      verify_proof_of_IsAuthentic platform (input claims) now
        (IsAuthentic-input claims now m size rid_size rid after near) small

  -- A request that the browser signs is accepted by the worker, in whatever chunks its body comes: if
  -- the ticket verifies under the worker's key and was issued for the owner's handle, prefix and public
  -- key, if the worker's clock is less than 45 seconds after the browser's and at most 15 seconds before
  -- it, and if the JSON of the body and of the envelope is read back, the worker takes from it the body's
  -- fields, the handle and the prefix.
  pub signed_request_passes :
      (claims : Fields) (signing_key : Bytes) (env : Env) (now : ℕ) (signed : SignedProofRequest)
      (chunks : List Bytes)
      → IsMatched platform signing db_prefix claims
      → base64_decode env.ticket_signing_key ≡ some signing_key
      → verify_ticket platform signing.ticket signing_key now ≡ value claims
      → signing.ticket ≢ []
      → length request_id ≡ 32
      → All (λ b. b < 256) request_id
      → now < now_ms / 1000 + 45
      → now_ms / 1000 ≤ now + 15
      → now_ms / 1000 + 45 < 9007199254740992
      → IsReadBack platform (body_fields_of signing db_prefix fields)
      → IsReadBack platform (envelope_fields signed.envelope)
      → sign_owner_proof platform signing db_prefix method path fields now_ms request_id
        ≡ fulfilled signed
      → concat chunks ≡ signed.body
      → require_proof platform (proofed_request platform signing method path chunks signed) env now
        ≡ value (record {
          body_json = body_fields_of signing db_prefix fields;
          user_handle = signing.user_handle;
          db_prefix = db_prefix;
        })
  unfolding expires_at
  signed_request_passes claims signing_key env now signed chunks m configured ticketed some_token
        rid_size rid after near small body_back envelope_back made whole =
      require_proof_of_IsPresented platform _ env now _ (record {
        token = signing.ticket;
        proof = wire;
        signing_key = signing_key;
        claims = claims;
        carried = unfold header proofed_request same in refl;
        some_token = some_token;
        enveloped =
            unfold header proofed_request same in
            require_proof_envelope_ok platform _ (envelope_fields signed.envelope) wire
              envelope_back.some_text envelope_back.parsed
              (subst (λ e. envelope_of (envelope_fields e) ≡ some wire) (sym e_envelope)
                (envelope_of-wire small));
        configured = configured;
        ticketed = ticketed;
        parsed =
            unfold proofed_request in
            rw e_whole (
              parse_body_ok platform (body_of platform signing db_prefix fields) _
                (unfold body_of in body_back.some_octets)
                (unfold body_of in rw body_back.decoded body_back.parsed));
        prefixed =
            unfold body_fields_of in
            field-with_field "db_prefix" (str db_prefix)
              (with_field "user_handle" (str (to_base64 signing.user_handle)) fields);
        handled =
            user_handle_of_ok platform _ (to_base64 signing.user_handle) signing.user_handle
              handle_field (base64_decode-to_base64 signing.user_handle m.handle_octets);
        verified =
            unfold proofed_request in
            rw e_whole (
              unfold input in
              verify_proof-input claims now m size rid_size rid after (omega (arith, near)) small);
      })
    where
      size : length signature ≡ 132
      size = (sign_owner_proof-fulfilled signed made).0

      e_envelope : signed.envelope ≡ envelope
      e_envelope =
          ap (λ (s : SignedProofRequest). s.envelope)
            (sym (sign_owner_proof-fulfilled signed made).1)

      e_whole : concat chunks ≡ body_of platform signing db_prefix fields
      e_whole =
          whole
          ∙ ap (λ (s : SignedProofRequest). s.body) (sym (sign_owner_proof-fulfilled signed made).1)

      handle_field :
          field "user_handle" (body_fields_of signing db_prefix fields)
          ≡ some (str (to_base64 signing.user_handle))
      handle_field =
          unfold body_fields_of in
          field-with_field-other "db_prefix" "user_handle" (str db_prefix)
            (with_field "user_handle" (str (to_base64 signing.user_handle)) fields) refl
          ∙ field-with_field "user_handle" (str (to_base64 signing.user_handle)) fields
