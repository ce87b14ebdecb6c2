-- ===== src/Access/Soundness.antt =====
-- worker/access.ts: what a token of Cloudflare Access that verifies has shown.
use txt.Prelude.{
  String, refl, ◌⊎◌, codes, ℕ, ◌≡◌, subst, ◌∙◌, ap, Option, none, some, [], ◌∷◌, ◌++◌, Text, Bytes,
  true, split_on, utf8,
}
use txt.Base64.{base64_url_decode}
use txt.Json.{Number, as_number, exceeds, Value, obj, arr, str, Items, Fields, field, as_string}
use txt.Errors.{Try, value}
use txt.Errors.Inversion.{bind-value, or_raise-value, require-value, require_last, value-injective}
use txt.Platform.{Platform}
use txt.Ticket.{three_parts, is_unexpired}
use txt.Access.{
  VerifyAccessJwtOptions, verify_access_jwt, verify_access_parts, check_header, find_key,
  check_signature, check_claims, jwks_keys, find_jwk, truthy, same_value, decode_json_segment,
  properties, names_audience, text_is,
}
use txt.Access.Inversion.{
  text_is-true, three_parts-some, names_audience-true, is_unexpired-true, jwks_keys-some,
  or_raise-last, kid_of_header-some, find_jwk-some, properties-some, IsSegment, IsAmong, IsNamed,
}

-- What a verified token establishes, with its parts and the key that signed it.
pub record IsVerified (platform : Platform) (options : VerifyAccessJwtOptions) (jwks : Try Value)
    (now : ℕ) (claims : Fields) : Type 0 where
  pub header_b64 : Text
  pub payload_b64 : Text
  pub signature_b64 : Text
  pub header : Fields
  pub kid : Value
  pub key_set : Fields
  pub keys : Items
  pub key : Fields
  pub key_kid : Value
  pub signature : Bytes
  pub parts : split_on b'.' options.token ≡ header_b64 ∷ payload_b64 ∷ signature_b64 ∷ []
  pub header_decoded : IsSegment platform header_b64 header
  pub algorithm : as_string (field "alg" header) ≡ some (codes "RS256")
  pub named : field "kid" header ≡ some kid
  pub some_name : truthy kid ≡ true
  pub fetched : jwks ≡ value (obj key_set)
  pub listed : field "keys" key_set ≡ some (arr keys)
  pub found : IsAmong (obj key) keys
  pub key_named : field "kid" key ≡ some key_kid
  pub same_name : same_value key_kid kid ≡ true
  pub signature_decoded : base64_url_decode signature_b64 ≡ some signature
  pub signed :
      platform.rsa_verify (obj key) signature (utf8 (header_b64 ++ b'.' ∷ payload_b64)) ≡ some true
  pub claimed : IsSegment platform payload_b64 claims
  pub expires_at : Number
  pub expiring : as_number (field "exp" claims) ≡ some expires_at
  pub unexpired : exceeds expires_at now ≡ true
  pub addressed :
      (field "aud" claims ≡ some (str options.audience))
      ⊎ (audiences : Items) × (field "aud" claims ≡ some (arr audiences))
        × IsAmong (str options.audience) audiences
  pub issued : as_string (field "iss" claims) ≡ some options.issuer
  pub owned : as_string (field "email" claims) ≡ some options.owner_email

module _ (platform : Platform) where
  segment_parsed :
      (o : Option Bytes) (v : Value)
      → (elim o [ none ↦ none | some bytes ↦ platform.json_parse (platform.text_decode bytes) ])
        ≡ some v
      → (bytes : Bytes) × (o ≡ some bytes)
        × (platform.json_parse (platform.text_decode bytes) ≡ some v)
  segment_parsed none v h = cc
  segment_parsed (some bytes) v h = (bytes, refl, h)

  decode_json_segment-IsSegment :
      (segment : Text) (v : Value) (fields : Fields) (key : String) (text : Text)
      → decode_json_segment platform segment ≡ some v
      → properties v ≡ value fields
      → as_string (field key fields) ≡ some text
      → IsSegment platform segment fields
  unfolding decode_json_segment
  decode_json_segment-IsSegment segment v fields key text h p e =
      subst
        (λ v.
          (bytes : Bytes) × (base64_url_decode segment ≡ some bytes)
          × (platform.json_parse (platform.text_decode bytes) ≡ some v))
        (properties-some v fields key text p e) (segment_parsed (base64_url_decode segment) v h)

  check_signature-value :
      (jwk : Value) (header payload signature_b64 : Text)
      → check_signature platform jwk header payload signature_b64 ≡ value tt
      → (signature : Bytes) × (base64_url_decode signature_b64 ≡ some signature)
        × (platform.rsa_verify jwk signature (utf8 (header ++ b'.' ∷ payload)) ≡ some true)
  unfolding check_signature
  check_signature-value jwk header payload signature_b64 h =
      let (signature, decoded, h1) = or_raise-value tt (base64_url_decode signature_b64) _ _ h in
      let (valid, verified, h2) =
        or_raise-value tt (platform.rsa_verify jwk signature (utf8 (header ++ b'.' ∷ payload))) _ _
          h1 in
      (signature, decoded, verified ∙ ap some (require_last valid _ tt h2))

  check_claims-value :
      (claims : Fields) (audience issuer email : Text) (now : ℕ)
      → check_claims platform claims audience issuer email now ≡ value tt
      → (is_unexpired claims now ≡ true)
        × (names_audience (field "aud" claims) audience ≡ true)
        × (as_string (field "iss" claims) ≡ some issuer)
        × (as_string (field "email" claims) ≡ some email)
  unfolding check_claims
  check_claims-value claims audience issuer email now h =
      let (fresh, h1) = require-value tt (is_unexpired claims now) _ _ h in
      let (aud, h2) = require-value tt (names_audience (field "aud" claims) audience) _ _ h1 in
      let (iss, h3) = require-value tt (text_is issuer (as_string (field "iss" claims))) _ _ h2 in
      (fresh, aud, text_is-true _ _ iss, text_is-true _ _ (require_last _ _ tt h3))

  check_header-value :
      (header_b64 : Text) (kid : Value)
      → check_header platform header_b64 ≡ value kid
      → (header : Fields) × IsSegment platform header_b64 header
        × (as_string (field "alg" header) ≡ some (codes "RS256"))
        × (field "kid" header ≡ some kid)
        × (truthy kid ≡ true)
  unfolding check_header
  check_header-value header_b64 kid h =
      let (parsed, read, h1) = or_raise-value kid (decode_json_segment platform header_b64) _ _ h in
      let (header, named, h2) = bind-value kid (properties parsed) _ h1 in
      let (alg, h3) =
        require-value kid (text_is (codes "RS256") (as_string (field "alg" header))) _ _ h2 in
      let algorithm = text_is-true _ _ alg in
      let (kid_found, some_kid) = kid_of_header-some _ kid (or_raise-last _ _ kid h3) in
      (
        header,
        decode_json_segment-IsSegment header_b64 parsed header "alg" _ read named algorithm,
        algorithm,
        kid_found,
        some_kid,
      )

  find_key-value :
      (jwks kid jwk : Value)
      → find_key platform jwks kid ≡ value jwk
      → (key_set : Fields) × (keys : Items) × (jwks ≡ obj key_set)
        × (field "keys" key_set ≡ some (arr keys))
        × IsAmong jwk keys
        × IsNamed kid jwk
  unfolding find_key
  find_key-value jwks kid jwk h =
      let (keys, listed, h1) = or_raise-value jwk (jwks_keys jwks) _ _ h in
      let (found, searched, h2) = bind-value jwk (find_jwk kid keys) _ h1 in
      let (key_set, is_set, has_keys) = jwks_keys-some jwks keys listed in
      let (among, named) =
        find_jwk-some kid jwk keys (searched ∙ ap value (or_raise-last _ _ jwk h2)) in
      (key_set, keys, is_set, has_keys, among, named)

  verify_access_parts-IsVerified :
      (options : VerifyAccessJwtOptions) (jwks : Try Value) (now : ℕ) (claims : Fields)
      (header payload signature_b64 : Text)
      → split_on b'.' options.token ≡ header ∷ payload ∷ signature_b64 ∷ []
      → verify_access_parts platform (header, payload, signature_b64) jwks options now
        ≡ value claims
      → IsVerified platform options jwks now claims
  unfolding verify_access_parts
  verify_access_parts-IsVerified options jwks now claims header payload signature_b64 parts h =
      let (kid, headed, h1) = bind-value claims (check_header platform header) _ h in
      let (keys, fetched, h2) = bind-value claims jwks _ h1 in
      let (jwk, found, h3) = bind-value claims (find_key platform keys kid) _ h2 in
      let (u, signed, h4) =
        bind-value claims (check_signature platform jwk header payload signature_b64) _ h3 in
      let (parsed, read, h5) =
        or_raise-value claims (decode_json_segment platform payload) _ _ h4 in
      let (fields, named, h6) = bind-value claims (properties parsed) _ h5 in
      let (v, checked, h7) =
        bind-value claims
          (check_claims platform fields options.audience options.issuer options.owner_email now) _
          h6 in
      let (header_fields, header_decoded, algorithm, kid_found, some_kid) =
        check_header-value header kid headed in
      let (key_set, key_list, is_set, listed, among, key_found) =
        find_key-value keys kid jwk found in
      let (key, key_kid, is_key, key_named, same_name) = key_found in
      let (signature, decoded, valid) =
        check_signature-value jwk header payload signature_b64 signed in
      let (fresh, aud, iss, email) =
        check_claims-value fields options.audience options.issuer options.owner_email now checked in
      let (expires_at, expiring, unexpired) = is_unexpired-true fields now fresh in
      subst (IsVerified platform options jwks now) (value-injective fields claims h7) (record {
        header_b64 = header;
        payload_b64 = payload;
        signature_b64 = signature_b64;
        header = header_fields;
        kid = kid;
        key_set = key_set;
        keys = key_list;
        key = key;
        key_kid = key_kid;
        signature = signature;
        parts = parts;
        header_decoded = header_decoded;
        algorithm = algorithm;
        named = kid_found;
        some_name = some_kid;
        fetched = fetched ∙ ap value is_set;
        listed = listed;
        found = subst (λ v. IsAmong v key_list) is_key among;
        key_named = key_named;
        same_name = same_name;
        signature_decoded = decoded;
        signed =
            subst
              (λ v. platform.rsa_verify v signature (utf8 (header ++ b'.' ∷ payload)) ≡ some true)
              is_key valid;
        claimed = decode_json_segment-IsSegment payload parsed fields "iss" _ read named iss;
        expires_at = expires_at;
        expiring = expiring;
        unexpired = unexpired;
        addressed = names_audience-true _ _ aud;
        issued = iss;
        owned = email;
      })

  -- Every token that verifies has three parts, of which the first encodes an RS256 header with a kid that
  -- is that of a key of the JWKS, and the second the claims that are returned; the third is a signature
  -- of that key over the two, and the claims are not expired, name the configured audience and issuer,
  -- and are those of the owner's email.
  pub verify_access_jwt-IsVerified :
      (options : VerifyAccessJwtOptions) (jwks : Try Value) (now : ℕ) (claims : Fields)
      → verify_access_jwt platform options jwks now ≡ value claims
      → IsVerified platform options jwks now claims
  unfolding verify_access_jwt
  verify_access_jwt-IsVerified options jwks now claims h =
      let ((header, payload, signature_b64), split, h1) =
        or_raise-value claims (three_parts (split_on b'.' options.token)) _ _ h in
      verify_access_parts-IsVerified options jwks now claims header payload signature_b64
        (three_parts-some (split_on b'.' options.token) header payload signature_b64 split) h1
