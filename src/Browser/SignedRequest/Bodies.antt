-- ===== src/Browser/SignedRequest/Bodies.antt =====
-- The worker parses from a body what the browser put into it.
use txt.Prelude.{ℕ, suc, ◌<◌, ◌≡◌, refl, ◌∙◌, Option, none, some, Text, Bytes, All}
use txt.Base64.{base64_encode, base64_decode}
use txt.Base64.RoundTrip.{base64_decode-base64_encode}
use txt.Json.{Value, str, nat, int, pos, field, as_integer}
use txt.Http.{accepted}
use txt.Documents.{
  write_of_blob, first_or_update, AccessWrite, clear, update, first, parse_patch,
  parse_access_write, positive,
}
use txt.Browser.Validation.{to_base64}
use txt.Browser.SignedRequest.{
  access_write_body, update_access_fields, with_field, body_fields_of, OwnerSigningIdentity,
}

abbrev pub IsWrite : AccessWrite → Type 0
IsWrite clear = Unit
IsWrite (update blob) = All (λ b. b < 256) blob
IsWrite (first blob wrapped) = All (λ b. b < 256) blob × All (λ b. b < 256) wrapped

pub base64_decode-to_base64 :
    (bytes : Bytes) → All (λ b. b < 256) bytes → base64_decode (to_base64 bytes) ≡ some bytes
unfolding to_base64 base64_encode
base64_decode-to_base64 bytes h = base64_decode-base64_encode bytes h

write_of_blob-bytes :
    (blob : Bytes) (key : Option Value)
    → All (λ b. b < 256) blob
    → write_of_blob (some (str (to_base64 blob))) key ≡ first_or_update blob key
unfolding write_of_blob
write_of_blob-bytes blob key h = rw (write_of_blob, base64_decode-to_base64 blob h) refl

first_or_update-bytes :
    (blob wrapped : Bytes)
    → All (λ b. b < 256) wrapped
    → first_or_update blob (some (str (to_base64 wrapped))) ≡ some (first blob wrapped)
unfolding first_or_update
first_or_update-bytes blob wrapped h = rw (first_or_update, base64_decode-to_base64 wrapped h) refl

parse_access_write-fields :
    (signing : OwnerSigningIdentity) (db_prefix : Text) (write : AccessWrite) (version : ℕ)
    → IsWrite write
    → parse_access_write (body_fields_of signing db_prefix (update_access_fields write version))
      ≡ some write
unfolding parse_access_write write_of_blob first_or_update body_fields_of update_access_fields
    access_write_body with_field field
parse_access_write-fields signing db_prefix clear version h = refl
parse_access_write-fields signing db_prefix (update blob) version h =
    write_of_blob-bytes blob none h
parse_access_write-fields signing db_prefix (first blob wrapped) version h =
    write_of_blob-bytes blob (some (str (to_base64 wrapped))) h.0
    ∙ first_or_update-bytes blob wrapped h.1

version_field :
    (signing : OwnerSigningIdentity) (db_prefix : Text) (write : AccessWrite) (version : ℕ)
    → field "access_version" (body_fields_of signing db_prefix (update_access_fields write version))
      ≡ some (nat version)
unfolding body_fields_of update_access_fields access_write_body with_field field
version_field signing db_prefix clear version = refl
version_field signing db_prefix (update blob) version = refl
version_field signing db_prefix (first blob wrapped) version = refl

-- The body of a write of reading state, with the owner's handle and prefix added to it, is parsed by the
-- worker as that write, at that version, of that document; its blobs are octets.
pub parse_patch-update_access_fields :
    (signing : OwnerSigningIdentity) (db_prefix : Text) (write : AccessWrite) (id version : ℕ)
    → IsWrite write
    → parse_patch
        (int (pos (suc id)))
        (body_fields_of signing db_prefix (update_access_fields write version))
      ≡ accepted (suc id, version, write)
unfolding parse_patch positive as_integer
parse_patch-update_access_fields signing db_prefix write id version h =
    rw
      (
        version_field signing db_prefix write version,
        parse_access_write-fields signing db_prefix write version h,
      )
      refl
