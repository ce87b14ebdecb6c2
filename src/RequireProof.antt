-- ===== src/RequireProof.antt =====
-- worker/requireProof.ts: the ticket and the proof of a mutating request, and the status of each
-- failure.
pub mod Inversion
pub mod Soundness
pub mod Completeness
use txt.Prelude.{
  String, ℕ, ◌+◌, Bool, true, false, ◌||◌, Option, none, some, List, [], ◌∷◌, ◌++◌, Text, Bytes,
  codes, includes, same, ascii_lower, if◌then◌else◌,
}
use txt.Base64.{base64_decode, concat}
use txt.Json.{
  ℤ, pos, Number, Value, obj, num, Fields, end, field, as_object, as_string, as_number,
  safe_integer,
}
use txt.Errors.{
  Error, plain, ticket_verification, proof_verification, proof_required, access_verification,
  redemption, Try, value, raise, require, or_raise, ◌>>=◌, ◌>>◌,
}
use txt.OwnerProof.{ProofEnvelope, VerifyProofInput, verify_proof, is_one}
use txt.Http.{Request, Env}
use txt.Platform.{Platform}
use txt.Ticket.{verify_ticket}

-- `Headers.get`, which compares names in lower case; `none` is absent. No name stands twice.
unfoldable pub header : Text → List (Text × Text) → Option Text
unfolding ascii_lower
header name [] = none
header name ((n, v) ∷ more) =
    if same (ascii_lower n) (ascii_lower name) then some v else header name more

-- statusForProofError: the patterns are alternatives of plain texts.
unfoldable pub status_for_proof_error : Text → ℕ
status_for_proof_error message =
    if includes message (codes "expired") || includes message (codes "too far in the future")
    then 401
    else if includes message (codes "does not match")
        || includes message (codes "signature verification failed")
    then 403
    else 400

pub record ProofContext : Type 0 where
  pub body_json : Fields
  pub user_handle : Bytes
  pub db_prefix : Text

unfoldable pub require_string : Fields → String → Error → Try Text
require_string body name error = or_raise (as_string (field name body)) error

pub missing_or_invalid : Text → Error
missing_or_invalid name = proof_required 400 (codes "missing or invalid " ++ name)

pub non_empty : Option Text → Option Text
non_empty none = none
non_empty (some []) = none
non_empty (some (c ∷ cs)) = some (c ∷ cs)

is_safe : Number → Bool
is_safe n = elim (safe_integer n) [ none ↦ false | some z ↦ true ]

unfoldable pub envelope_of : Fields → Option ProofEnvelope
unfolding is_safe is_one
envelope_of fields = elim (as_number (field "version" fields)) [
  | none ↦ none
  | some version ↦ elim (as_number (field "expires_at" fields)) [
    | none ↦ none
    | some expires_at ↦ elim (as_string (field "request_id" fields)) [
      | none ↦ none
      | some request_id ↦ elim (as_string (field "signature" fields)) [
        | none ↦ none
        | some signature ↦
            if is_one version
            then if is_safe expires_at
              then some (record {
                version = version;
                expires_at = expires_at;
                request_id = request_id;
                signature = signature;
              })
              else none
            else none
      ]
    ]
  ]
]

-- Reading a field of a parsed envelope that is `null` is a TypeError.
unfoldable pub envelope_fields : Value → Try Fields
envelope_fields (obj fields) = value fields
envelope_fields Value.null = raise (plain (codes "TypeError"))
envelope_fields _ = value end

-- The error of a failed ticket, and of a failed proof.
unfoldable pub ticket_failed : {A : Type 0} → Try A → Try A
ticket_failed (value a) = value a
ticket_failed (raise (ticket_verification message)) = raise (proof_required 401 message)
ticket_failed (raise e) = raise e

unfoldable pub proof_failed : {A : Type 0} → Try A → Try A
proof_failed (value a) = value a
proof_failed (raise (proof_verification message)) =
    raise (proof_required (status_for_proof_error message) message)
proof_failed (raise e) = raise e

module _ (platform : Platform) where
  unfoldable pub require_proof_envelope : Option Text → Try ProofEnvelope
  unfolding non_empty
  require_proof_envelope header = do
    let malformed = proof_required 400 (codes "malformed X-Owner-Proof header")
    text ← or_raise (non_empty header) (proof_required 400 (codes "missing X-Owner-Proof header"))
    parsed ← or_raise (platform.json_parse text) malformed
    fields ← envelope_fields parsed
    or_raise (envelope_of fields) malformed

  body_value : Bytes → Option Value
  body_value [] = some (obj end)
  body_value (b ∷ bs) = platform.json_parse (platform.text_decode (b ∷ bs))

  unfoldable pub parse_body : Bytes → Try Fields
  unfolding body_value
  parse_body bytes = do
    let malformed = proof_required 400 (codes "malformed request body")
    parsed ← or_raise (body_value bytes) malformed
    or_raise (as_object (some parsed)) malformed

  unfoldable pub user_handle_of : Fields → Try Bytes
  user_handle_of body = do
    let malformed = proof_required 400 (codes "malformed user_handle")
    text ← require_string body "user_handle" malformed
    or_raise (base64_decode text) malformed

  -- `now` is the clock in seconds.
  unfoldable pub require_proof : Request → Env → ℕ → Try ProofContext
  unfolding non_empty missing_or_invalid
  require_proof request env now = do
    ticket_token ←
        or_raise (non_empty (header (codes "X-Owner-Ticket") request.headers))
          (proof_required 400 (codes "missing X-Owner-Ticket header"))
    proof ← require_proof_envelope (header (codes "X-Owner-Proof") request.headers)
    signing_key ←
        or_raise (base64_decode env.ticket_signing_key) (plain (codes "InvalidCharacterError"))
    ticket_claims ← ticket_failed (verify_ticket platform ticket_token signing_key now)
    let body_bytes = concat request.chunks
    body ← parse_body body_bytes
    db_prefix ← require_string body "db_prefix" (missing_or_invalid (codes "db_prefix"))
    user_handle ← user_handle_of body
    proof_failed (
        verify_proof platform
          (record {
            ticket_claims = ticket_claims;
            exact_compact_ticket = ticket_token;
            proof = proof;
            user_handle = user_handle;
            db_prefix = db_prefix;
            method = request.method;
            path = request.path;
            body = body_bytes;
          })
          now)
    value (record { body_json = body; user_handle = user_handle; db_prefix = db_prefix })
