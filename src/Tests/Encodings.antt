-- ===== src/Tests/Encodings.antt =====
-- Tests of the encodings, of the grant and of the bounded read.
use txt.Prelude.{
  ◌≡◌, refl, some, [], ◌∷◌, codes, replicate, length, arith, utf8, Bytes, if◌then◌else◌, ◌||◌, ltb,
}
use txt.Base64.{base64_encode, base64_decode, base64_url_encode, base64_url_decode, concat}
use txt.Base64.RoundTrip.{base64_decode-base64_encode, base64_url_decode-base64_url_encode}
use txt.Errors.{value, raise}
use txt.Json.{int, pos, exceeds}
use txt.ShareGrant.{seal_grant, open_grant}
use txt.ShareGrant.RoundTrip.{GcmLaws, open_grant-seal_grant}
use txt.SharedUrl.{read_bounded_body, too_large}
use txt.SharedUrl.Bounds.{read_bounded_body_lem}
use txt.Tests.Data.{platform}

abbrev octets : Bytes
octets = 0 ∷ 255 ∷ 16 ∷ 7 ∷ []

base64_decode-base64_encode_example : base64_decode (base64_encode octets) ≡ some octets
base64_decode-base64_encode_example =
    base64_decode-base64_encode octets
      (omega arith, (omega arith, (omega arith, (omega arith, tt))))

base64_url_decode-base64_url_encode_example :
    base64_url_decode (base64_url_encode octets) ≡ some octets
base64_url_decode-base64_url_encode_example =
    base64_url_decode-base64_url_encode octets
      (omega arith, (omega arith, (omega arith, (omega arith, tt))))

platform-GcmLaws : GcmLaws platform
platform-GcmLaws = record {
  decrypts = λ key nonce ad text. refl;
  tagged = λ key nonce ad text. omega arith;
}

open_grant-seal_grant_example :
    open_grant platform
      (seal_grant platform (codes "path") [] [] (replicate 32 1) (replicate 12 2))
      []
      []
    ≡ value (codes "path")
open_grant-seal_grant_example =
    open_grant-seal_grant platform platform-GcmLaws (codes "path") [] [] (replicate 32 1)
      (replicate 12 2) refl refl (unfold utf8 in refl)

read_bounded_body_example : read_bounded_body 4 (int (pos 0)) ((1 ∷ 2 ∷ []) ∷ (3 ∷ []) ∷ []) ≡ (
    if exceeds (int (pos 0)) 4 || ltb 4 (length (concat ((1 ∷ 2 ∷ []) ∷ (3 ∷ []) ∷ [])))
    then raise too_large
    else value (concat ((1 ∷ 2 ∷ []) ∷ (3 ∷ []) ∷ [])))
read_bounded_body_example = read_bounded_body_lem 4 (int (pos 0)) ((1 ∷ 2 ∷ []) ∷ (3 ∷ []) ∷ [])
