-- ===== src/OwnerProof.antt =====
-- worker/ownerProof.ts: the canonical bytes of a proof of possession and their verification.
pub mod Soundness
pub mod Completeness
pub mod Canonical
use txt.Prelude.{
  ℕ, zero, suc, ◌+◌, ◌-◌, ◌*◌, ◌/◌, ◌%◌, ◌^◌, ◌==◌, ltb, leb, not, Bool, true, false, Option, none,
  some, List, [], ◌∷◌, ◌++◌, Text, Bytes, codes, utf8, same, length, if◌then◌else◌,
}
use txt.Base64.{base64_decode, base64_url_encode, base64_url_decode, concat}
use txt.Json.{ℤ, pos, negsuc, Number, Value, Fields, field, as_string, safe_integer}
use txt.Errors.{Error, plain, proof_verification, Try, value, raise, require, or_raise, ◌>>=◌, ◌>>◌}
use txt.Platform.{Platform}

abbrev pub domain_label : Bytes
domain_label = codes "txt:owner-proof:v1"

abbrev pub max_proof_ttl_seconds : ℕ
max_proof_ttl_seconds = 60

abbrev pub signature_len : ℕ
signature_len = 132

abbrev pub request_id_len : ℕ
request_id_len = 32

abbrev pub user_handle_len : ℕ
user_handle_len = 32

pub record ProofEnvelope : Type 0 where
  pub version : Number
  pub expires_at : Number
  pub request_id : Text
  pub signature : Text

-- The octets of a number, `n` of them, most significant first.
unfoldable pub big_endian : ℕ → ℕ → Bytes
big_endian zero x = []
big_endian (suc n) x = (x / 256 ^ n % 256) ∷ big_endian n x

-- `setBigUint64(0, BigInt(value), false)`.
unfoldable pub u64be : ℕ → Bytes
unfolding big_endian
u64be x = big_endian 8 x

pub record CanonicalProofInput : Type 0 where
  pub exact_compact_ticket : Text
  pub user_handle : Bytes
  pub expires_at : ℕ
  pub request_id : Bytes
  pub db_prefix : Text
  pub method : Text
  pub path : Text
  pub body : Bytes

pub record VerifyProofInput : Type 0 where
  pub ticket_claims : Fields
  pub exact_compact_ticket : Text
  pub proof : ProofEnvelope
  pub user_handle : Bytes
  pub db_prefix : Text
  pub method : Text
  pub path : Text
  pub body : Bytes

failure : Text → Error
failure message = proof_verification message

-- A claim is the very text.
unfoldable pub claim_is : Fields → Text → Option Text → Bool
claim_is claims expected none = false
claim_is claims expected (some claim) = same expected claim

-- `expires_at` as an instant after `now`: one that is not after 0 has expired.
unexpired : ℤ → ℕ → Try ℕ
unfolding failure
unexpired (negsuc n) now = raise (failure (codes "proof expired"))
unexpired (pos n) now = if leb n now then raise (failure (codes "proof expired")) else value n

unfoldable pub is_one : Number → Bool
is_one (Number.int (pos n)) = n == 1
is_one _ = false

exact_length : ℕ → Text → Bytes → Try Bytes
unfolding failure
exact_length n name bytes =
    if length bytes == n
    then value bytes
    else raise (failure (name ++ codes " must be exactly so many bytes"))

module _ (platform : Platform) where
  unfoldable pub build_canonical_proof_bytes : CanonicalProofInput → Bytes
  build_canonical_proof_bytes input =
      let ticket_hash = platform.sha256 (utf8 input.exact_compact_ticket) in
      let db_prefix_hash = platform.sha256 (utf8 input.db_prefix) in
      let method_path_body_hash =
        platform.sha256
          (concat (utf8 input.method ∷ (0 ∷ []) ∷ utf8 input.path ∷ (0 ∷ []) ∷ input.body ∷ [])) in
      concat (
        domain_label
        ∷ (0 ∷ [])
        ∷ ticket_hash
        ∷ input.user_handle
        ∷ u64be input.expires_at
        ∷ input.request_id
        ∷ db_prefix_hash
        ∷ method_path_body_hash
        ∷ [])

  -- The envelope's own checks: version, freshness and lengths.
  unfoldable pub check_envelope : ProofEnvelope → Bytes → ℕ → Try (ℕ × Bytes × Bytes)
  unfolding is_one unexpired exact_length failure
  check_envelope proof user_handle now = do
    require (is_one proof.version) (failure (codes "unsupported proof version"))
    expiry ←
        or_raise (safe_integer proof.expires_at)
          (failure (codes "proof expires_at must be an integer"))
    expires_at ← unexpired expiry now
    require (leb (expires_at - now) max_proof_ttl_seconds)
        (failure (codes "proof expiry too far in the future"))
    signature ← or_raise (base64_decode proof.signature) (plain (codes "InvalidCharacterError"))
    signature_bytes ← exact_length signature_len (codes "signature") signature
    request_id ← or_raise (base64_decode proof.request_id) (plain (codes "InvalidCharacterError"))
    request_id_bytes ← exact_length request_id_len (codes "request_id") request_id
    _ ← exact_length user_handle_len (codes "user_handle") user_handle
    value (expires_at, signature_bytes, request_id_bytes)

  -- The ticket's own hashes of the user handle and the prefix.
  unfoldable pub check_bindings : Fields → Bytes → Text → Try (Unit {0})
  unfolding claim_is failure
  check_bindings claims user_handle db_prefix = do
    require
        (claim_is claims (base64_url_encode (platform.sha256 user_handle))
          (as_string (field "user_handle_hash" claims)))
        (failure (codes "user_handle does not match ticket's user_handle_hash"))
    require
        (claim_is claims (base64_url_encode (platform.sha256 (utf8 db_prefix)))
          (as_string (field "db_binding_hash" claims)))
        (failure (codes "db_prefix does not match ticket's db_binding_hash"))

  -- The import of the key, inside its `try`, and the verification.
  unfoldable pub verify_signature : Option Text → Bytes → Bytes → Option Bool
  verify_signature none signature canonical = none
  verify_signature (some key_b64) signature canonical = elim (base64_url_decode key_b64) [
    | none ↦ none
    | some key ↦ platform.p521_verify key signature canonical
  ]

  unfoldable pub verify_proof : VerifyProofInput → ℕ → Try (Unit {0})
  unfolding failure
  verify_proof input now = do
    (expires_at, signature, request_id) ← check_envelope input.proof input.user_handle now
    check_bindings input.ticket_claims input.user_handle input.db_prefix
    valid ←
        or_raise
          (verify_signature (as_string (field "sign_public_key" input.ticket_claims)) signature (
            build_canonical_proof_bytes (record {
              exact_compact_ticket = input.exact_compact_ticket;
              user_handle = input.user_handle;
              expires_at = expires_at;
              request_id = request_id;
              db_prefix = input.db_prefix;
              method = input.method;
              path = input.path;
              body = input.body;
            })))
          (failure (codes "failed to import sign_public_key"))
    require valid (failure (codes "proof signature verification failed"))
