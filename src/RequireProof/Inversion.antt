-- ===== src/RequireProof/Inversion.antt =====
-- worker/requireProof.ts: what each of the steps of a request that passes has shown.
use txt.Prelude.{
  arith, String, ◌≡◌, ◌∙◌, ap, sym, subst, [], ◌∷◌, Option, none, some, Text, Bytes, codes,
}
use txt.Base64.{base64_decode}
use txt.Json.{
  end-no_string, Value, obj, arr, str, Fields, end, field, as_string, as_number, as_object,
}
use txt.Errors.{
  Error, plain, ticket_verification, proof_verification, proof_required, access_verification,
  redemption, Try, value, raise, or_raise,
}
use txt.Errors.Inversion.{bind-value, value-injective, or_raise-value}
use txt.Platform.{Platform}
use txt.OwnerProof.{ProofEnvelope}
use txt.RequireProof.{
  envelope_of, envelope_fields, body_value, ProofContext, require_proof_envelope, non_empty,
  parse_body, require_string, user_handle_of, ticket_failed, proof_failed, missing_or_invalid,
}

pub ticket_failed-value : {A : Type 0} (t : Try A) (a : A) → ticket_failed t ≡ value a → t ≡ value a
unfolding ticket_failed
ticket_failed-value (value b) a h = h
ticket_failed-value (raise (plain m)) a h = cc
ticket_failed-value (raise (access_verification m)) a h = cc
ticket_failed-value (raise (ticket_verification m)) a h = cc
ticket_failed-value (raise (proof_verification m)) a h = cc
ticket_failed-value (raise (proof_required s m)) a h = cc
ticket_failed-value (raise (redemption s m)) a h = cc

pub proof_failed-value : {A : Type 0} (t : Try A) (a : A) → proof_failed t ≡ value a → t ≡ value a
unfolding proof_failed
proof_failed-value (value b) a h = h
proof_failed-value (raise (plain m)) a h = cc
proof_failed-value (raise (access_verification m)) a h = cc
proof_failed-value (raise (ticket_verification m)) a h = cc
proof_failed-value (raise (proof_verification m)) a h = cc
proof_failed-value (raise (proof_required s m)) a h = cc
proof_failed-value (raise (redemption s m)) a h = cc

pub non_empty-some :
    (o : Option Text) (text : Text) (e : Error)
    → or_raise (non_empty o) e ≡ value text
    → o ≡ some text
unfolding non_empty
non_empty-some none text e h = cc
non_empty-some (some []) text e h = cc
non_empty-some (some (c ∷ cs)) text e h = cc

pub or_raise-some :
    {A : Type 0} (o : Option A) (e : Error) (a : A) → or_raise o e ≡ value a → o ≡ some a
or_raise-some none e a h = cc
or_raise-some (some b) e a h = cc

module _ (platform : Platform) where
  -- The proof that the text of a header carries, as JSON.
  pub record IsEnvelope (text : Text) (proof : ProofEnvelope) : Type 0 where
    pub fields : Fields
    pub parsed : platform.json_parse text ≡ some (obj fields)
    pub version : as_number (field "version" fields) ≡ some proof.version
    pub expires_at : as_number (field "expires_at" fields) ≡ some proof.expires_at
    pub request_id : as_string (field "request_id" fields) ≡ some proof.request_id
    pub signature : as_string (field "signature" fields) ≡ some proof.signature

  -- What the worker takes from a body.
  pub record IsBody (bytes : Bytes) (context : ProofContext) : Type 0 where
    pub user_handle_b64 : Text
    pub parsed : platform.json_parse (platform.text_decode bytes) ≡ some (obj context.body_json)
    pub prefixed : as_string (field "db_prefix" context.body_json) ≡ some context.db_prefix
    pub named : as_string (field "user_handle" context.body_json) ≡ some user_handle_b64
    pub handled : base64_decode user_handle_b64 ≡ some context.user_handle

  envelope_of-some :
      (text : Text) (fields : Fields) (proof : ProofEnvelope)
      → platform.json_parse text ≡ some (obj fields)
      → envelope_of fields ≡ some proof
      → IsEnvelope text proof
  unfolding envelope_of
  envelope_of-some text fields proof e h = record {
    fields = fields;
    parsed = e;
    version = ground (arith, h);
    expires_at = ground (arith, h);
    request_id = ground (arith, h);
    signature = ground (arith, h);
  }

  end-no_envelope :
      (fields : Fields) (proof : ProofEnvelope) → end ≡ fields → envelope_of fields ≡ some proof → ⊥
  unfolding envelope_of field as_number
  end-no_envelope fields proof h e = cc (subst (λ f. envelope_of f ≡ some proof) (sym h) e)

  envelope_fields-obj :
      (v : Value) (fields : Fields) (proof : ProofEnvelope)
      → envelope_fields v ≡ value fields
      → envelope_of fields ≡ some proof
      → v ≡ obj fields
  unfolding envelope_fields
  envelope_fields-obj (obj f) fields proof h e = ap obj (value-injective _ _ h)
  envelope_fields-obj Value.null fields proof h e = cc
  envelope_fields-obj (Value.bool b) fields proof h e =
      absurd (end-no_envelope fields proof (value-injective _ _ h) e)
  envelope_fields-obj (Value.num n) fields proof h e =
      absurd (end-no_envelope fields proof (value-injective _ _ h) e)
  envelope_fields-obj (str t) fields proof h e =
      absurd (end-no_envelope fields proof (value-injective _ _ h) e)
  envelope_fields-obj (arr items) fields proof h e =
      absurd (end-no_envelope fields proof (value-injective _ _ h) e)

  pub require_proof_envelope-IsEnvelope :
      (carried : Option Text) (proof : ProofEnvelope)
      → require_proof_envelope platform carried ≡ value proof
      → (text : Text) × (carried ≡ some text) × IsEnvelope text proof
  unfolding require_proof_envelope
  require_proof_envelope-IsEnvelope carried proof h =
      let (text, some_text, h1) = bind-value proof (or_raise (non_empty carried) _) _ h in
      let (parsed, read, h2) = or_raise-value proof (platform.json_parse text) _ _ h1 in
      let (fields, opened, h3) = bind-value proof (envelope_fields parsed) _ h2 in
      let made = or_raise-some _ _ proof h3 in
      (
        text,
        non_empty-some carried text _ some_text,
        envelope_of-some text fields proof
            (read ∙ ap some (envelope_fields-obj parsed fields proof opened made)) made,
      )

  empty-object :
      (v : Value) (fields : Fields)
      → some (obj end) ≡ some v
      → as_object (some v) ≡ some fields
      → end ≡ fields
  unfolding as_object
  empty-object v fields h o = cc (subst (λ w. as_object w ≡ some fields) (sym h) o)

  as_object-obj :
      (v : Value) (fields : Fields) (key : String) (text : Text)
      → as_object (some v) ≡ some fields
      → as_string (field key fields) ≡ some text
      → v ≡ obj fields
  unfolding as_object
  as_object-obj (obj f) fields key text o e = cc
  as_object-obj (arr items) fields key text o e = absurd (end-no_string fields key text (cc o) e)
  as_object-obj Value.null fields key text o e = cc
  as_object-obj (Value.bool b) fields key text o e = cc
  as_object-obj (Value.num n) fields key text o e = cc
  as_object-obj (str t) fields key text o e = cc

  body_value-obj :
      (bytes : Bytes) (v : Value) (fields : Fields) (key : String) (text : Text)
      → body_value platform bytes ≡ some v
      → as_object (some v) ≡ some fields
      → as_string (field key fields) ≡ some text
      → platform.json_parse (platform.text_decode bytes) ≡ some (obj fields)
  unfolding body_value
  body_value-obj [] v fields key text h o e =
      absurd (end-no_string fields key text (empty-object v fields h o) e)
  body_value-obj (b ∷ bs) v fields key text h o e =
      h ∙ ap some (as_object-obj v fields key text o e)

  pub parse_body-IsBody :
      (bytes : Bytes) (context : ProofContext)
      → parse_body platform bytes ≡ value context.body_json
      → require_string context.body_json "db_prefix" (missing_or_invalid (codes "db_prefix"))
        ≡ value context.db_prefix
      → user_handle_of platform context.body_json ≡ value context.user_handle
      → IsBody bytes context
  unfolding parse_body user_handle_of require_string
  parse_body-IsBody bytes context h p u =
      let (v, read, h1) = or_raise-value context.body_json (body_value platform bytes) _ _ h in
      let (text, named, u1) =
        bind-value context.user_handle
          (or_raise (as_string (field "user_handle" context.body_json)) _) _ u in
      let prefixed = or_raise-some _ _ context.db_prefix p in
      record {
        user_handle_b64 = text;
        parsed =
            body_value-obj bytes v context.body_json "db_prefix" context.db_prefix read
              (or_raise-some _ _ context.body_json h1) prefixed;
        prefixed = prefixed;
        named = or_raise-some _ _ text named;
        handled = or_raise-some _ _ context.user_handle u1;
      }
