-- ===== src/Browser/Records/RoundTrip.antt =====
-- The browser reads from the worker's answer what the worker put there.
use txt.Prelude.{
  String, ℕ, ◌<◌, ◌-◌, ◌%◌, ◌≡◌, ◌≢◌, refl, ap, ◌∙◌, false, Option, none, some, [], ◌∷◌, ◌++◌,
  append-nil, Text, Bytes, All, length, replicate, arith, codes,
}
use txt.Base64.{btoa, base64_encode, base64_decode}
use txt.Base64.RoundTrip.{base64_decode-base64_encode}
use txt.Base64.Shape.{btoa-IsPrintable, length-btoa, IsPrintable}
use txt.Json.{entry, end, Fields, field, str, int, pos, nat}
use txt.Documents.{document_json}
use txt.Documents
use txt.Browser.Failures.{fulfilled}
use txt.Browser.Validation.{
  is_blank, blank, string_field, string_of, from_base64, bytes_field, nullable_bytes_field,
  nullable, padded, decoded, number_field, number_in, object_record,
}
use txt.Browser.Records.{DocumentRow, parse_document_row}

-- Octets, and at least one.
pub record IsBlob (bytes : Bytes) : Type 0 where
  pub octets : All (λ b. b < 256) bytes
  pub some_octets : bytes ≢ []

is_blank-IsPrintable : (c : ℕ) → IsPrintable c → is_blank c ≡ false
unfolding is_blank
is_blank-IsPrintable c h = ground arith

blank-IsPrintable : (text : Text) → All IsPrintable text → text ≢ [] → blank text ≡ false
unfolding blank
blank-IsPrintable [] h ne = absurd (ne refl)
blank-IsPrintable (c ∷ cs) h ne = rw (is_blank-IsPrintable c h.0) refl

btoa-ne-nil : (bytes : Bytes) → bytes ≢ [] → btoa bytes ≢ []
unfolding btoa
btoa-ne-nil [] ne e = ne refl
btoa-ne-nil (a ∷ []) ne e = cc
btoa-ne-nil (a ∷ b ∷ []) ne e = cc
btoa-ne-nil (a ∷ b ∷ c ∷ rest) ne e = cc

padded_lem : (text : Text) → length text % 4 ≡ 0 → padded text ≡ text
unfolding padded
padded_lem text h =
    let none_needed : (4 - length text % 4) % 4 ≡ 0 = omega (arith, h) in
    ap (λ n. text ++ replicate n b'=') none_needed ∙ append-nil text

pub from_base64-base64_encode :
    (bytes : Bytes) → All (λ b. b < 256) bytes → from_base64 (base64_encode bytes) ≡ fulfilled bytes
unfolding from_base64 base64_encode base64_decode
from_base64-base64_encode bytes h =
    ap (λ t. decoded (base64_decode t)) (padded_lem (btoa bytes) (length-btoa bytes))
    ∙ ap decoded (base64_decode-base64_encode bytes h)

string_of-base64_encode :
    (bytes : Bytes) (label : Text)
    → bytes ≢ []
    → string_of (some (str (base64_encode bytes))) label ≡ fulfilled (base64_encode bytes)
unfolding string_of base64_encode
string_of-base64_encode bytes label ne =
    rw (blank-IsPrintable (btoa bytes) (btoa-IsPrintable bytes) (btoa-ne-nil bytes ne)) refl

-- A field that holds a blob in base64 is read as the blob.
pub bytes_field_lem :
    (fields : Fields) (key : String) (label : Text) (bytes : Bytes)
    → IsBlob bytes
    → field key fields ≡ some (str (base64_encode bytes))
    → bytes_field fields key label ≡ fulfilled bytes
unfolding bytes_field string_field
bytes_field_lem fields key label bytes b e =
    rw
      (
        e,
        string_of-base64_encode bytes label b.some_octets,
        from_base64-base64_encode bytes b.octets,
      )
      refl

abbrev pub IsNullableBlob : Option Bytes → Type 0
IsNullableBlob none = Unit
IsNullableBlob (some bytes) = IsBlob bytes

nullable_bytes_field_lem :
    (fields : Fields) (key : String) (label : Text) (bytes : Option Bytes)
    → IsNullableBlob bytes
    → field key fields ≡ some (Documents.nullable_base64 bytes)
    → nullable_bytes_field fields key label ≡ fulfilled bytes
unfolding nullable_bytes_field nullable Documents.nullable_base64
nullable_bytes_field_lem fields key label none b e =
    ap (λ v. nullable v (bytes_field fields key label)) e
nullable_bytes_field_lem fields key label (some bytes) b e =
    ap (λ v. nullable v (bytes_field fields key label)) e
    ∙ ap (nullable (some (str (base64_encode bytes)))) (bytes_field_lem fields key label bytes b e)

-- A document's row, as the browser has it.
abbrev pub as_read : Documents.DocumentRow → DocumentRow
as_read row = record {
  id = int (pos row.id);
  created_at = int (pos row.created_at);
  access_blob = row.access_blob;
  access_version = int (pos row.access_version);
  access_key_wrapped = row.access_key_wrapped;
}

document_fields : Documents.DocumentRow → Fields
document_fields row = entry "id" (nat row.id) (
    entry "created_at" (nat row.created_at) (
      entry "access_blob" (Documents.nullable_base64 row.access_blob) (
        entry "access_version" (nat row.access_version)
          (entry "access_key_wrapped" (Documents.nullable_base64 row.access_key_wrapped) end))))

-- The row of a document that the worker answers with is read back by the browser, field by field, if
-- its blobs, where there are any, have octets and at least one.
pub parse_document_row-document_json :
    (row : Documents.DocumentRow)
    → IsNullableBlob row.access_blob
    → IsNullableBlob row.access_key_wrapped
    → parse_document_row (document_json row) ≡ fulfilled (as_read row)
unfolding parse_document_row document_json object_record number_field number_in field
    document_fields
parse_document_row-document_json row b k =
    rw
      (
        nullable_bytes_field_lem (document_fields row) "access_blob" (codes "document row")
            row.access_blob b refl,
        nullable_bytes_field_lem (document_fields row) "access_key_wrapped" (codes "document row")
            row.access_key_wrapped k refl,
      )
      refl
