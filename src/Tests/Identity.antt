-- ===== src/Tests/Identity.antt =====
-- Tests of the verification of an Access token.
use txt.Prelude.{refl, some, codes, same, if◌then◌else◌, split_on}
use txt.Base64.{base64_url_decode}
use txt.Errors.{Try, value}
use txt.Json.{
  Value, obj, str, arr, Fields, entry, end, nat, nil, cons, field, as_string, as_number, exceeds,
}
use txt.Platform.{Platform}
use txt.Ticket.{three_parts, is_unexpired}
use txt.Access.{
  VerifyAccessJwtOptions, verify_access_jwt, properties, check_header, find_key, check_signature,
  check_claims, names_audience,
}
use txt.Access.Soundness.{IsVerified, verify_access_jwt-IsVerified}
use txt.Tests.Data.{platform_with}

abbrev claims : Fields
claims = entry "exp" (nat 2000) (
    entry "aud" (arr (cons (str (codes "app")) nil)) (
      entry "iss" (str (codes "https://team"))
        (entry "email" (str (codes "owner@example.com")) end)))

abbrev token_header : Fields
token_header = entry "alg" (str (codes "RS256")) (entry "kid" (str (codes "k1")) end)

-- The texts of the two segments.
abbrev platform : Platform
platform =
    platform_with
      (λ text. if same text (codes "header") then some (obj token_header) else some (obj claims))

abbrev jwks : Try Value
jwks = value (obj (entry "keys" (arr (cons (obj (entry "kid" (str (codes "k1")) end)) nil)) end))

abbrev options : VerifyAccessJwtOptions
options = record {
  token = codes "aGVhZGVy.Y2xhaW1z.AQID";
  audience = codes "app";
  issuer = codes "https://team";
  owner_email = codes "owner@example.com";
}

verify_access_jwt-IsVerified_example : IsVerified platform options jwks 1000 claims
unfolding verify_access_jwt split_on three_parts check_header base64_url_decode properties field
    as_string as_number exceeds same find_key check_signature check_claims names_audience
    is_unexpired
verify_access_jwt-IsVerified_example =
    verify_access_jwt-IsVerified platform options jwks 1000 claims refl
