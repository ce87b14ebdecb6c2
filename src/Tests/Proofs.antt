-- ===== src/Tests/Proofs.antt =====
-- Tests of the canonical bytes of a proof.
use txt.Prelude.{◌≡◌, refl, codes, utf8, replicate, arith}
use txt.OwnerProof.{CanonicalProofInput, build_canonical_proof_bytes}
use txt.OwnerProof.Canonical.{request_bytes, build_canonical_proof_bytes-injective}
use txt.Tests.Data.{platform}

abbrev input : CanonicalProofInput
input = record {
  exact_compact_ticket = codes "a.b.c";
  user_handle = replicate 32 1;
  expires_at = 1000;
  request_id = replicate 32 2;
  db_prefix = codes "p";
  method = codes "PATCH";
  path = codes "/v1/documents/7/access";
  body = codes "{}";
}

-- Another request, with the same digests.
abbrev other : CanonicalProofInput
other = record input { body = codes "[]" }

build_canonical_proof_bytes-injective_example :
    (platform.sha256 (utf8 input.exact_compact_ticket)
      ≡ platform.sha256 (utf8 other.exact_compact_ticket))
    × (input.user_handle ≡ other.user_handle)
    × (input.expires_at ≡ other.expires_at)
    × (input.request_id ≡ other.request_id)
    × (platform.sha256 (utf8 input.db_prefix) ≡ platform.sha256 (utf8 other.db_prefix))
    × (platform.sha256 (request_bytes input) ≡ platform.sha256 (request_bytes other))
unfolding build_canonical_proof_bytes
build_canonical_proof_bytes-injective_example =
    build_canonical_proof_bytes-injective platform input other (λ message. refl) refl refl refl refl
      (omega arith) (omega arith) refl
