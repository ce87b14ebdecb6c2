-- ===== src/Browser/SignedRequest.antt =====
-- ui/src/data/ownerProof.ts and the bodies that ui/src/data/apiClient.ts sends: a mutating request with
-- its ticket and a fresh proof of possession over its exact bytes.
pub mod Bodies
pub mod Lookups
pub mod Acceptance
use txt.Prelude.{
  String, ℕ, ◌+◌, ◌*◌, ◌/◌, ◌%◌, ◌^◌, ◌==◌, Bool, true, false, Option, none, some, List, [], ◌∷◌,
  ◌++◌, Text, Bytes, codes, utf8, length, if◌then◌else◌,
}
use text.Mathlib.Text.{◌==◌ as str_eq}
use txt.Base64.{concat}
use txt.Json.{Value, str, num, int, pos, nat, obj, Number, Fields, end, entry}
use txt.Platform.{Platform}
use txt.Http.{Request}
use txt.Documents.{AccessWrite, clear, update, first}
use txt.Browser.Failures.{Settled, fulfilled, rejected, error}
use txt.Browser.Validation.{to_base64}

abbrev pub proof_version : ℕ
proof_version = 1

abbrev pub p521_signature_bytes : ℕ
p521_signature_bytes = 132

abbrev pub domain_label : Bytes
domain_label = codes "txt:owner-proof:v1"

abbrev pub proof_ttl_seconds : ℕ
proof_ttl_seconds = 45

abbrev pub request_id_bytes : ℕ
request_id_bytes = 32

-- `setBigUint64(0, BigInt(value), false)`: the octets of 64 bits.
unfoldable pub u64be : ℕ → Bytes
u64be value =
    (value / 256 ^ 7 % 256)
    ∷ (value / 256 ^ 6 % 256)
    ∷ (value / 256 ^ 5 % 256)
    ∷ (value / 256 ^ 4 % 256)
    ∷ (value / 256 ^ 3 % 256)
    ∷ (value / 256 ^ 2 % 256)
    ∷ (value / 256 % 256)
    ∷ (value % 256)
    ∷ []

-- `{ ...fields, key: value }`.
unfoldable pub with_field : String → Value → Fields → Fields
with_field key v end = entry key v end
with_field key v (entry k w rest) =
    if str_eq k key then entry k v rest else entry k w (with_field key v rest)

pub record ProofEnvelope : Type 0 where
  pub expires_at : ℕ
  pub request_id : Text
  pub signature : Text

-- The envelope as JSON has it.
unfoldable pub envelope_fields : ProofEnvelope → Fields
envelope_fields envelope = entry "version" (nat proof_version) (
    entry "expires_at" (nat envelope.expires_at) (
      entry "request_id" (str envelope.request_id)
        (entry "signature" (str envelope.signature) end)))

pub record SignedProofRequest : Type 0 where
  pub envelope : ProofEnvelope
  pub body : Bytes

-- The imported private key is known by what it signs: ECDSA P-521 over SHA-512.
pub record OwnerSigningIdentity : Type 0 where
  pub ticket : Text
  pub user_handle : Bytes
  pub sign : Bytes → Bytes

-- accessWriteBody.
unfoldable pub access_write_body : AccessWrite → Fields
unfolding to_base64
access_write_body clear = end
access_write_body (first blob wrapped) =
    entry "access_blob" (str (to_base64 blob))
      (entry "access_key_wrapped" (str (to_base64 wrapped)) end)
access_write_body (update blob) = entry "access_blob" (str (to_base64 blob)) end

-- updateDocumentAccess's body.
unfoldable pub update_access_fields : AccessWrite → ℕ → Fields
unfolding access_write_body with_field
update_access_fields write version =
    with_field "access_version" (nat version) (access_write_body write)

unfoldable pub create_bookmark_fields : ℕ → Bytes → Bytes → Fields
unfolding to_base64
create_bookmark_fields document_id key_wrapped bookmark_blob =
    entry "document_id" (nat document_id) (
      entry "key_wrapped" (str (to_base64 key_wrapped))
        (entry "bookmark_blob" (str (to_base64 bookmark_blob)) end))

unfoldable pub create_share_fields : ℕ → Text → Text → Bytes → Bytes → Fields
unfolding to_base64
create_share_fields document_id share_id share_path key_wrapped owner_blob =
    entry "document_id" (nat document_id) (
      entry "share_id" (str share_id) (
        entry "share_path" (str share_path) (
          entry "key_wrapped" (str (to_base64 key_wrapped))
            (entry "owner_blob" (str (to_base64 owner_blob)) end))))

unfoldable pub delete_share_fields : ℕ → Text → Text → Fields
delete_share_fields document_id share_id share_path =
    entry "document_id" (nat document_id)
      (entry "share_id" (str share_id) (entry "share_path" (str share_path) end))

unfoldable pub body_fields_of : OwnerSigningIdentity → Text → Fields → Fields
unfolding with_field to_base64
body_fields_of signing db_prefix body_fields =
    with_field "db_prefix" (str db_prefix)
      (with_field "user_handle" (str (to_base64 signing.user_handle)) body_fields)

module _ (platform : Platform) where
  unfoldable pub canonical_proof_bytes :
      Text → Bytes → ℕ → Bytes → Text → Text → Text → Bytes → Bytes
  unfolding u64be
  canonical_proof_bytes ticket user_handle expires_at request_id db_prefix method path body =
      let ticket_hash = platform.sha256 (utf8 ticket) in
      let db_prefix_hash = platform.sha256 (utf8 db_prefix) in
      let method_path_body_hash =
        platform.sha256 (concat (utf8 method ∷ (0 ∷ []) ∷ utf8 path ∷ (0 ∷ []) ∷ body ∷ [])) in
      concat (
        domain_label
        ∷ (0 ∷ [])
        ∷ ticket_hash
        ∷ user_handle
        ∷ u64be expires_at
        ∷ request_id
        ∷ db_prefix_hash
        ∷ method_path_body_hash
        ∷ [])

  unfoldable pub body_of : OwnerSigningIdentity → Text → Fields → Bytes
  unfolding body_fields_of
  body_of signing db_prefix body_fields =
      utf8 (platform.json_stringify (obj (body_fields_of signing db_prefix body_fields)))

  -- `now_ms` is the clock and `request_id` the 32 random bytes.
  unfoldable pub sign_owner_proof :
      OwnerSigningIdentity → Text → Text → Text → Fields → ℕ → Bytes → Settled SignedProofRequest
  unfolding canonical_proof_bytes body_of to_base64
  sign_owner_proof signing db_prefix method path body_fields now_ms request_id =
      let expires_at = now_ms / 1000 + proof_ttl_seconds in
      let body = body_of signing db_prefix body_fields in
      let signature = signing.sign (
        canonical_proof_bytes signing.ticket signing.user_handle expires_at request_id db_prefix
          method path body) in
      if length signature == p521_signature_bytes
      then fulfilled (record {
        envelope = record {
          expires_at = expires_at;
          request_id = to_base64 request_id;
          signature = to_base64 signature;
        };
        body = body;
      })
      else rejected (error (codes "P-521 signature must be exactly 132 bytes"))

  -- The request that `proofed` sends, as the worker receives it; its body comes in any chunks.
  unfoldable pub proofed_request :
      OwnerSigningIdentity → Text → Text → List Bytes → SignedProofRequest → Request
  unfolding envelope_fields
  proofed_request signing method path chunks signed = record {
    method = method;
    path = path;
    query = [];
    headers =
        (codes "Content-Type", codes "application/json")
        ∷ (codes "X-Owner-Ticket", signing.ticket)
        ∷ (codes "X-Owner-Proof", platform.json_stringify (obj (envelope_fields signed.envelope)))
        ∷ [];
    chunks = chunks;
  }
