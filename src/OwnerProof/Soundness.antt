-- ===== src/OwnerProof/Soundness.antt =====
-- worker/ownerProof.ts: a proof that verifies is fresh, of the right sizes, bound to the ticket's
-- owner and prefix, and signed over the canonical bytes of the very request.
use txt.Prelude.{
  ℕ, ◌+◌, ◌≤◌, ◌<◌, ◌≡◌, refl, ap, ◌∙◌, Bool, true, Option, none, some, Text, Bytes, utf8,
  same_sound, length, arith, Option-cases, inl, inr,
}
use txt.Base64.{base64_decode, base64_url_encode, base64_url_decode}
use txt.Json.{ℤ, pos, negsuc, Number, int, Fields, field, as_string, safe_integer}
use txt.Errors.{Error, value, require, or_raise, ◌>>=◌}
use txt.Errors.Inversion.{bind-value, or_raise-value, require-value, require_last}
use txt.Platform.{Platform}
use txt.OwnerProof.{
  VerifyProofInput, verify_proof, check_envelope, check_bindings, verify_signature,
  build_canonical_proof_bytes, is_one, claim_is, unexpired, exact_length, signature_len,
  request_id_len, user_handle_len, max_proof_ttl_seconds,
}

exact_length-value :
    (n : ℕ) (name : Text) (bytes out : Bytes)
    → exact_length n name bytes ≡ value out
    → (bytes ≡ out) × (length out ≡ n)
unfolding exact_length
exact_length-value n name bytes out h = ground arith

unexpired-value : (z : ℤ) (now n : ℕ) → unexpired z now ≡ value n → (z ≡ pos n) × (now < n)
unfolding unexpired
unexpired-value (negsuc m) now n h = cc
unexpired-value (pos m) now n h = ground arith

is_one-true : (n : Number) → is_one n ≡ true → n ≡ int (pos 1)
unfolding is_one
is_one-true n h = ground arith

safe_integer-some : (n : Number) (z : ℤ) → safe_integer n ≡ some z → n ≡ int z
unfolding safe_integer
safe_integer-some n z h = ground arith

claim_is-true :
    (fields : Fields) (text : Text) (claim : Option Text)
    → claim_is fields text claim ≡ true
    → claim ≡ some text
unfolding claim_is
claim_is-true fields text none h = cc
claim_is-true fields text (some claim) h = ground (arith, same_sound text claim h)

-- What a verified proof establishes, with the octets that its texts decode to.
pub record IsAuthentic (platform : Platform) (input : VerifyProofInput) (now : ℕ) : Type 0 where
  pub expires_at : ℕ
  pub signature : Bytes
  pub request_id : Bytes
  pub key_b64 : Text
  pub key : Bytes
  pub version_one : input.proof.version ≡ int (pos 1)
  pub names_expiry : input.proof.expires_at ≡ int (pos expires_at)
  pub not_expired : now < expires_at
  pub within_a_minute : expires_at ≤ now + max_proof_ttl_seconds
  pub signature_decoded : base64_decode input.proof.signature ≡ some signature
  pub signature_size : length signature ≡ signature_len
  pub request_id_decoded : base64_decode input.proof.request_id ≡ some request_id
  pub request_id_size : length request_id ≡ request_id_len
  pub user_handle_size : length input.user_handle ≡ user_handle_len
  pub owner_bound :
      as_string (field "user_handle_hash" input.ticket_claims)
      ≡ some (base64_url_encode (platform.sha256 input.user_handle))
  pub prefix_bound :
      as_string (field "db_binding_hash" input.ticket_claims)
      ≡ some (base64_url_encode (platform.sha256 (utf8 input.db_prefix)))
  pub key_claimed : as_string (field "sign_public_key" input.ticket_claims) ≡ some key_b64
  pub key_decoded : base64_url_decode key_b64 ≡ some key
  pub signed :
      platform.p521_verify key signature (
        build_canonical_proof_bytes platform (record {
          exact_compact_ticket = input.exact_compact_ticket;
          user_handle = input.user_handle;
          expires_at = expires_at;
          request_id = request_id;
          db_prefix = input.db_prefix;
          method = input.method;
          path = input.path;
          body = input.body;
        }))
      ≡ some true

abbrev Envelope : VerifyProofInput → ℕ → ℕ → Bytes → Bytes → Type 0
Envelope input now expires_at signature request_id =
    (input.proof.version ≡ int (pos 1))
    × (input.proof.expires_at ≡ int (pos expires_at))
    × (now < expires_at)
    × (expires_at ≤ now + max_proof_ttl_seconds)
    × (base64_decode input.proof.signature ≡ some signature)
    × (length signature ≡ signature_len)
    × (base64_decode input.proof.request_id ≡ some request_id)
    × (length request_id ≡ request_id_len)
    × (length input.user_handle ≡ user_handle_len)

module _ (platform : Platform) where
  check_envelope-value :
      (input : VerifyProofInput) (now expires_at : ℕ) (signature request_id : Bytes)
      → check_envelope platform input.proof input.user_handle now
        ≡ value (expires_at, signature, request_id)
      → Envelope input now expires_at signature request_id
  unfolding check_envelope is_one unexpired exact_length safe_integer
  check_envelope-value input now expires_at signature request_id h = ground arith

  check_bindings-value :
      (fields : Fields) (user_handle : Bytes) (db_prefix : Text)
      → check_bindings platform fields user_handle db_prefix ≡ value tt
      → (as_string (field "user_handle_hash" fields)
          ≡ some (base64_url_encode (platform.sha256 user_handle)))
        × (as_string (field "db_binding_hash" fields)
            ≡ some (base64_url_encode (platform.sha256 (utf8 db_prefix))))
  unfolding check_bindings
  check_bindings-value fields user_handle db_prefix h =
      let (owner, h1) =
        require-value tt
          (claim_is fields (base64_url_encode (platform.sha256 user_handle))
            (as_string (field "user_handle_hash" fields)))
          _ _ h in
      (claim_is-true fields _ _ owner, claim_is-true fields _ _ (require_last _ _ tt h1))

  verify_signature-some :
      (claim : Option Text) (signature canonical : Bytes) (valid : Bool)
      → verify_signature platform claim signature canonical ≡ some valid
      → (key_b64 : Text) × (key : Bytes) × (claim ≡ some key_b64)
        × (base64_url_decode key_b64 ≡ some key)
        × (platform.p521_verify key signature canonical ≡ some valid)
  unfolding verify_signature
  verify_signature-some none signature canonical valid h = cc
  verify_signature-some (some key_b64) signature canonical valid h =
      elim (Option-cases (base64_url_decode key_b64)) [
        | inl e ↦ absurd (no_key e)
        | inr (key, e) ↦ (key_b64, key, refl, e, same_key key e)
      ]
    where
      no_key : base64_url_decode key_b64 ≡ none → ⊥
      no_key e = ground arith

      same_key :
          (key : Bytes)
          → base64_url_decode key_b64 ≡ some key
          → platform.p521_verify key signature canonical ≡ some valid
      same_key key e = ground arith

  canonical : VerifyProofInput → ℕ → Bytes → Bytes
  canonical input expires_at request_id = build_canonical_proof_bytes platform (record {
    exact_compact_ticket = input.exact_compact_ticket;
    user_handle = input.user_handle;
    expires_at = expires_at;
    request_id = request_id;
    db_prefix = input.db_prefix;
    method = input.method;
    path = input.path;
    body = input.body;
  })

  signed-IsAuthentic :
      (input : VerifyProofInput) (now expires_at : ℕ) (signature request_id : Bytes) (e f : Error)
      → Envelope input now expires_at signature request_id
      → check_bindings platform input.ticket_claims input.user_handle input.db_prefix ≡ value tt
      → (or_raise
            (verify_signature platform
              (as_string (field "sign_public_key" input.ticket_claims))
              signature
              (canonical input expires_at request_id))
            e
          >>= λ valid. require valid f)
        ≡ value tt
      → IsAuthentic platform input now
  unfolding canonical
  signed-IsAuthentic input now expires_at signature request_id e f envelope bound h =
      let claim = as_string (field "sign_public_key" input.ticket_claims) in
      let message = canonical input expires_at request_id in
      let (valid, verified, h1) =
        or_raise-value tt (verify_signature platform claim signature message) e
          (λ valid. require valid f) h in
      let (key_b64, key, claimed, decoded, signed) =
        verify_signature-some claim signature message valid verified in
      let (owner, prefix) = check_bindings-value _ _ _ bound in
      let (one, expiry, after, near, sig, sig_size, rid, rid_size, handle_size) = envelope in
      record {
        expires_at = expires_at;
        signature = signature;
        request_id = request_id;
        key_b64 = key_b64;
        key = key;
        version_one = one;
        names_expiry = expiry;
        not_expired = after;
        within_a_minute = near;
        signature_decoded = sig;
        signature_size = sig_size;
        request_id_decoded = rid;
        request_id_size = rid_size;
        user_handle_size = handle_size;
        owner_bound = owner;
        prefix_bound = prefix;
        key_claimed = claimed;
        key_decoded = decoded;
        signed = signed ∙ ap some (require_last valid f tt h1);
      }

  -- Every proof that verifies is authentic: fresh for at most a minute, of the right sizes, bound to
  -- the ticket's owner and prefix, and signed over the canonical bytes of the request.
  pub verify_proof-IsAuthentic :
      (input : VerifyProofInput) (now : ℕ)
      → verify_proof platform input now ≡ value tt
      → IsAuthentic platform input now
  unfolding verify_proof canonical
  verify_proof-IsAuthentic input now h =
      let ((expires_at, signature, request_id), envelope, h1) =
        bind-value tt (check_envelope platform input.proof input.user_handle now) _ h in
      let (u, bound, h2) =
        bind-value tt
          (check_bindings platform input.ticket_claims input.user_handle input.db_prefix) _ h1 in
      signed-IsAuthentic input now expires_at signature request_id _ _
        (check_envelope-value input now expires_at signature request_id envelope) bound h2
