-- ===== src/OwnerProof/Canonical.antt =====
-- worker/ownerProof.ts: the canonical bytes determine the request that they stand for.
use txt.Prelude.{ℕ, ◌<◌, ◌≡◌, refl, sym, ◌∙◌, [], ◌∷◌, ◌++◌, Bytes, utf8, length, arith}
use txt.Base64.{concat}
use txt.Platform.{Platform}
use txt.OwnerProof.{
  CanonicalProofInput, build_canonical_proof_bytes, big_endian, u64be, user_handle_len,
  request_id_len, domain_label,
}

-- Prefixes of the same length are the same where the whole is.
append-cancel :
    (xs ys us vs : Bytes) → length xs ≡ length ys → xs ++ us ≡ ys ++ vs → (xs ≡ ys) × (us ≡ vs)
append-cancel [] [] us vs n e = (refl, e)
append-cancel [] (y ∷ ys) us vs n e = absurd (omega (arith, n))
append-cancel (x ∷ xs) [] us vs n e = absurd (omega (arith, n))
append-cancel (x ∷ xs) (y ∷ ys) us vs n e =
    let (same_tail, rest) = append-cancel xs ys us vs (omega (arith, n)) (cc) in (cc, rest)

length-u64be : (x : ℕ) → length (u64be x) ≡ 8
unfolding u64be big_endian
length-u64be x = refl

u64be-injective :
    (x y : ℕ) → x < 18446744073709551616 → y < 18446744073709551616 → u64be x ≡ u64be y → x ≡ y
unfolding u64be big_endian
u64be-injective x y hx hy e = ground arith

-- What the bytes say of an input.
abbrev pub request_bytes : CanonicalProofInput → Bytes
request_bytes input =
    concat (utf8 input.method ∷ (0 ∷ []) ∷ utf8 input.path ∷ (0 ∷ []) ∷ input.body ∷ [])

module _ (platform : Platform) where
  -- Two inputs with the same canonical bytes have the same digests of ticket, prefix and request, the
  -- same owner, expiry and request id, where a digest is 32 octets, the user handle and the request
  -- id have their sizes, and the expiry fits in 64 bits.
  pub build_canonical_proof_bytes-injective :
      (a b : CanonicalProofInput)
      → ((message : Bytes) → length (platform.sha256 message) ≡ 32)
      → length a.user_handle ≡ user_handle_len
      → length b.user_handle ≡ user_handle_len
      → length a.request_id ≡ request_id_len
      → length b.request_id ≡ request_id_len
      → a.expires_at < 18446744073709551616
      → b.expires_at < 18446744073709551616
      → build_canonical_proof_bytes platform a ≡ build_canonical_proof_bytes platform b
      → (platform.sha256 (utf8 a.exact_compact_ticket)
          ≡ platform.sha256 (utf8 b.exact_compact_ticket))
        × (a.user_handle ≡ b.user_handle)
        × (a.expires_at ≡ b.expires_at)
        × (a.request_id ≡ b.request_id)
        × (platform.sha256 (utf8 a.db_prefix) ≡ platform.sha256 (utf8 b.db_prefix))
        × (platform.sha256 (request_bytes a) ≡ platform.sha256 (request_bytes b))
  unfolding build_canonical_proof_bytes concat
  build_canonical_proof_bytes-injective a b digest ha hb ra rb xa xb e =
      let (label, e1) = append-cancel domain_label domain_label _ _ refl e in
      let (zero_octet, e2) = append-cancel (0 ∷ []) (0 ∷ []) _ _ refl e1 in
      let (ticket, e3) =
        append-cancel (platform.sha256 (utf8 a.exact_compact_ticket)) _ _ _
          (digest _ ∙ sym (digest _)) e2 in
      let (handle, e4) = append-cancel a.user_handle b.user_handle _ _ (ha ∙ sym hb) e3 in
      let (expiry, e5) =
        append-cancel (u64be a.expires_at) (u64be b.expires_at) _ _
          (length-u64be _ ∙ sym (length-u64be _)) e4 in
      let (id, e6) = append-cancel a.request_id b.request_id _ _ (ra ∙ sym rb) e5 in
      let (prefix, e7) =
        append-cancel (platform.sha256 (utf8 a.db_prefix)) _ _ _ (digest _ ∙ sym (digest _)) e6 in
      let (request, e8) =
        append-cancel (platform.sha256 (request_bytes a)) _ _ _ (digest _ ∙ sym (digest _)) e7 in
      (ticket, handle, u64be-injective _ _ xa xb expiry, id, prefix, request)
