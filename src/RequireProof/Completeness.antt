-- ===== src/RequireProof/Completeness.antt =====
-- worker/requireProof.ts: a request that carries a ticket and a proof that verify passes.
use txt.Prelude.{ℕ, ◌≡◌, ◌≢◌, refl, [], ◌∷◌, some, Text, Bytes, codes}
use txt.Base64.{base64_decode, concat}
use txt.Json.{obj, str, Fields, field, as_string, as_object}
use txt.Errors.{Error, value, or_raise}
use txt.Http.{Request, Env}
use txt.Platform.{Platform}
use txt.Ticket.{verify_ticket}
use txt.OwnerProof.{ProofEnvelope, verify_proof}
use txt.RequireProof.{
  ProofContext, require_proof, require_proof_envelope, header, non_empty, parse_body, body_value,
  envelope_of, envelope_fields, require_string, user_handle_of, ticket_failed, proof_failed,
}

non_empty_ok :
    (text : Text) (e : Error) → text ≢ [] → or_raise (non_empty (some text)) e ≡ value text
unfolding non_empty
non_empty_ok [] e ne = absurd (ne refl)
non_empty_ok (c ∷ cs) e ne = refl

module _ (platform : Platform) where
  pub parse_body_ok :
      (bytes : Bytes) (fields : Fields)
      → bytes ≢ []
      → platform.json_parse (platform.text_decode bytes) ≡ some (obj fields)
      → parse_body platform bytes ≡ value fields
  unfolding parse_body body_value as_object
  parse_body_ok [] fields ne e = absurd (ne refl)
  parse_body_ok (b ∷ bs) fields ne e = rw e refl

  pub require_proof_envelope_ok :
      (text : Text) (fields : Fields) (proof : ProofEnvelope)
      → text ≢ []
      → platform.json_parse text ≡ some (obj fields)
      → envelope_of fields ≡ some proof
      → require_proof_envelope platform (some text) ≡ value proof
  unfolding require_proof_envelope non_empty envelope_fields
  require_proof_envelope_ok [] fields proof ne e p = absurd (ne refl)
  require_proof_envelope_ok (c ∷ cs) fields proof ne e p = rw (e, p) refl

  pub user_handle_of_ok :
      (fields : Fields) (text : Text) (user_handle : Bytes)
      → field "user_handle" fields ≡ some (str text)
      → base64_decode text ≡ some user_handle
      → user_handle_of platform fields ≡ value user_handle
  unfolding user_handle_of require_string as_string
  user_handle_of_ok fields text user_handle e d = rw (e, d) refl

  -- The parts of a request that passes.
  pub record IsPresented (request : Request) (env : Env) (now : ℕ) (context : ProofContext)
      : Type 0 where
    pub token : Text
    pub proof : ProofEnvelope
    pub signing_key : Bytes
    pub claims : Fields
    pub carried : header (codes "X-Owner-Ticket") request.headers ≡ some token
    pub some_token : token ≢ []
    pub enveloped :
        require_proof_envelope platform (header (codes "X-Owner-Proof") request.headers)
        ≡ value proof
    pub configured : base64_decode env.ticket_signing_key ≡ some signing_key
    pub ticketed : verify_ticket platform token signing_key now ≡ value claims
    pub parsed : parse_body platform (concat request.chunks) ≡ value context.body_json
    pub prefixed : field "db_prefix" context.body_json ≡ some (str context.db_prefix)
    pub handled : user_handle_of platform context.body_json ≡ value context.user_handle
    pub verified :
        verify_proof platform
          (record {
            ticket_claims = claims;
            exact_compact_ticket = token;
            proof = proof;
            user_handle = context.user_handle;
            db_prefix = context.db_prefix;
            method = request.method;
            path = request.path;
            body = concat request.chunks;
          })
          now
        ≡ value tt

  pub require_proof_of_IsPresented :
      (request : Request) (env : Env) (now : ℕ) (context : ProofContext)
      → IsPresented request env now context
      → require_proof platform request env now ≡ value context
  unfolding require_proof ticket_failed proof_failed require_string as_string
  require_proof_of_IsPresented request env now context p =
      rw
        (
          p.carried,
          non_empty_ok p.token _ p.some_token,
          p.enveloped,
          p.configured,
          p.ticketed,
          p.parsed,
          p.prefixed,
          p.handled,
          p.verified,
        )
        refl
