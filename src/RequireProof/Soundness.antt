-- ===== src/RequireProof/Soundness.antt =====
-- worker/requireProof.ts: what a request that passes has shown.
use txt.Prelude.{ℕ, ◌≡◌, subst, some, Text, Bytes, codes}
use txt.Base64.{base64_decode, concat}
use txt.Json.{Fields}
use txt.Errors.{plain, proof_required, value, or_raise}
use txt.Errors.Inversion.{bind-value, value-injective}
use txt.Http.{Request, Env}
use txt.Platform.{Platform}
use txt.Ticket.{verify_ticket}
use txt.OwnerProof.{ProofEnvelope, verify_proof}
use txt.OwnerProof.Soundness.{IsAuthentic, verify_proof-IsAuthentic}
use txt.RequireProof.{
  ProofContext, require_proof, require_proof_envelope, header, non_empty, parse_body,
  require_string, user_handle_of, ticket_failed, proof_failed, missing_or_invalid,
}
use txt.RequireProof.Inversion.{
  IsEnvelope, IsBody, require_proof_envelope-IsEnvelope, parse_body-IsBody, ticket_failed-value,
  proof_failed-value, non_empty-some, or_raise-some,
}

module _ (platform : Platform) where
  -- The proof of possession that a request carries, under a ticket that the worker signed.
  pub record IsPossession (request : Request) (env : Env) (now : ℕ) (context : ProofContext)
      : Type 0 where
    pub token : Text
    pub proof_text : Text
    pub proof : ProofEnvelope
    pub signing_key : Bytes
    pub claims : Fields
    pub carried : header (codes "X-Owner-Ticket") request.headers ≡ some token
    pub proof_carried : header (codes "X-Owner-Proof") request.headers ≡ some proof_text
    pub enveloped : IsEnvelope platform proof_text proof
    pub body_read : IsBody platform (concat request.chunks) context
    pub configured : base64_decode env.ticket_signing_key ≡ some signing_key
    pub ticketed : verify_ticket platform token signing_key now ≡ value claims
    pub authentic :
        IsAuthentic platform
          (record {
            ticket_claims = claims;
            exact_compact_ticket = token;
            proof = proof;
            user_handle = context.user_handle;
            db_prefix = context.db_prefix;
            method = request.method;
            path = request.path;
            body = concat request.chunks;
          })
          now

  -- Every request that passes carries a ticket that verifies under the worker's key, and in its
  -- X-Owner-Proof header a proof that is authentic for that very ticket and for the request's own
  -- method, path and body; the fields, the handle and the prefix are those of that body.
  pub require_proof-IsPossession :
      (request : Request) (env : Env) (now : ℕ) (context : ProofContext)
      → require_proof platform request env now ≡ value context
      → IsPossession request env now context
  unfolding require_proof
  require_proof-IsPossession request env now context h =
      let (token, carried, h1) =
        bind-value context
          (or_raise (non_empty (header (codes "X-Owner-Ticket") request.headers))
            (proof_required 400 (codes "missing X-Owner-Ticket header")))
          _ h in
      let (proof, enveloped, h2) =
        bind-value context
          (require_proof_envelope platform (header (codes "X-Owner-Proof") request.headers)) _ h1 in
      let (signing_key, configured, h3) =
        bind-value context
          (or_raise (base64_decode env.ticket_signing_key) (plain (codes "InvalidCharacterError")))
          _ h2 in
      let (claims, ticketed, h4) =
        bind-value context (ticket_failed (verify_ticket platform token signing_key now)) _ h3 in
      let (body, parsed, h5) =
        bind-value context (parse_body platform (concat request.chunks)) _ h4 in
      let (db_prefix, prefixed, h6) =
        bind-value context
          (require_string body "db_prefix" (missing_or_invalid (codes "db_prefix"))) _ h5 in
      let (user_handle, handled, h7) = bind-value context (user_handle_of platform body) _ h6 in
      let (u, verified, h8) =
        bind-value context
          (proof_failed (
            verify_proof platform
              (record {
                ticket_claims = claims;
                exact_compact_ticket = token;
                proof = proof;
                user_handle = user_handle;
                db_prefix = db_prefix;
                method = request.method;
                path = request.path;
                body = concat request.chunks;
              })
              now))
          _ h7 in
      let (proof_text, proof_carried, is_envelope) =
        require_proof_envelope-IsEnvelope platform (header (codes "X-Owner-Proof") request.headers)
          proof enveloped in
      subst (IsPossession request env now) (value-injective _ _ h8) (record {
        token = token;
        proof = proof;
        signing_key = signing_key;
        claims = claims;
        carried = non_empty-some _ token _ carried;
        configured = or_raise-some _ _ signing_key configured;
        ticketed = ticket_failed-value _ claims ticketed;
        proof_text = proof_text;
        proof_carried = proof_carried;
        enveloped = is_envelope;
        body_read = parse_body-IsBody platform (concat request.chunks) _ parsed prefixed handled;
        authentic = verify_proof-IsAuthentic platform _ now (proof_failed-value _ u verified);
      })
