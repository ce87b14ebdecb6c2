-- ===== src/OwnerProof/Completeness.antt =====
-- worker/ownerProof.ts: an authentic proof verifies.
use txt.Prelude.{
  ℕ, ◌<◌, ◌≤◌, ◌+◌, ◌≡◌, refl, true, some, Bytes, utf8, same_refl, leb, ◌-◌, length, arith,
}
use txt.Base64.{base64_url_encode}
use txt.Json.{pos, int, safe_integer}
use txt.Errors.{value}
use txt.Platform.{Platform}
use txt.OwnerProof.{
  VerifyProofInput, verify_proof, check_envelope, check_bindings, verify_signature, is_one,
  claim_is, unexpired, exact_length, max_proof_ttl_seconds,
}
use txt.OwnerProof.Soundness.{IsAuthentic}

safe_integer_ok : (n : ℕ) → n < 9007199254740992 → safe_integer (int (pos n)) ≡ some (pos n)
unfolding safe_integer
safe_integer_ok n h = ground arith

exact_length_ok :
    (n : ℕ) (name bytes : Bytes) → length bytes ≡ n → exact_length n name bytes ≡ value bytes
unfolding exact_length
exact_length_ok n name bytes h = ground arith

unexpired_ok : (n now : ℕ) → now < n → unexpired (pos n) now ≡ value n
unfolding unexpired
unexpired_ok n now h = ground arith

within_ok :
    (n now : ℕ) → n ≤ now + max_proof_ttl_seconds → leb (n - now) max_proof_ttl_seconds ≡ true
within_ok n now h = ground arith

module _ (platform : Platform) where
  check_envelope_ok :
      (input : VerifyProofInput) (now : ℕ) (a : IsAuthentic platform input now)
      → a.expires_at < 9007199254740992
      → check_envelope platform input.proof input.user_handle now
        ≡ value (a.expires_at, a.signature, a.request_id)
  unfolding check_envelope is_one
  check_envelope_ok input now a small =
      rw
        (
          a.version_one,
          a.names_expiry,
          safe_integer_ok a.expires_at small,
          unexpired_ok a.expires_at now a.not_expired,
          within_ok a.expires_at now a.within_a_minute,
          a.signature_decoded,
          exact_length_ok _ _ _ a.signature_size,
          a.request_id_decoded,
          exact_length_ok _ _ _ a.request_id_size,
          exact_length_ok _ _ _ a.user_handle_size,
        )
        refl

  check_bindings_ok :
      (input : VerifyProofInput) (now : ℕ) (a : IsAuthentic platform input now)
      → check_bindings platform input.ticket_claims input.user_handle input.db_prefix ≡ value tt
  unfolding check_bindings claim_is
  check_bindings_ok input now a =
      rw
        (
          a.owner_bound,
          a.prefix_bound,
          same_refl (base64_url_encode (platform.sha256 input.user_handle)),
          same_refl (base64_url_encode (platform.sha256 (utf8 input.db_prefix))),
        )
        refl

  -- Every authentic proof whose expiry is a safe integer verifies.
  pub verify_proof_of_IsAuthentic :
      (input : VerifyProofInput) (now : ℕ) (a : IsAuthentic platform input now)
      → a.expires_at < 9007199254740992
      → verify_proof platform input now ≡ value tt
  unfolding verify_proof verify_signature
  verify_proof_of_IsAuthentic input now a small =
      rw
        (
          check_envelope_ok input now a small,
          check_bindings_ok input now a,
          a.key_claimed,
          verify_signature,
          a.key_decoded,
          a.signed,
        )
        refl
