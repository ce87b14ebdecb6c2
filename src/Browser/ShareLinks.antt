-- ===== src/Browser/ShareLinks.antt =====
-- ui/src/data/shares.ts, the material of a share and its link, and ui/src/data/sharedReader.ts, what a
-- reader takes from a link. `URLSearchParams` is the parameter `SearchParams`.
use txt.Prelude.{
  ℕ, ◌==◌, Bool, true, false, not, ◌&&◌, ◌||◌, Option, none, some, List, [], ◌∷◌, ◌++◌, Text, Bytes,
  codes, if◌then◌else◌, length, ltb, leb, same,
}
use txt.Json.{Value, Fields, str, obj, end, entry}
use txt.Base64.{btoa, replace_char, strip_padding}
use txt.ShareGrant.{all_chars}
use txt.Browser.Base32.{to_base32_crockford}
use txt.Browser.Failures.{Settled, fulfilled, rejected, error, ◌>>=◌}
use txt.Browser.Validation.{object_record, string_field, from_base64, to_base64}
pub mod Opening

pub record SearchParams : Type 0 where
  -- `new URLSearchParams(text).get(name)`, where `none` is null.
  pub get : Text → Text → Option Text
  -- `new URLSearchParams({ ... }).toString()`.
  pub to_text : List (Text × Text) → Text

pub record ShareMaterial : Type 0 where
  pub share_id : Bytes
  pub content_key : Bytes
  pub share_path : Text

-- Of three draws of random bytes.
unfoldable pub new_share_material : Bytes → Bytes → Bytes → ShareMaterial
new_share_material share_id content_key path = record {
  share_id = share_id;
  content_key = content_key;
  share_path = to_base32_crockford path;
}

unfoldable pub object_key : Text → Text → Text
object_key db_prefix share_path = db_prefix ++ codes "/shared/" ++ share_path

unfoldable pub base64_url : Bytes → Text
unfolding to_base64 replace_char strip_padding
base64_url bytes = strip_padding (replace_char b'/' b'_' (replace_char b'+' b'-' (to_base64 bytes)))

unfoldable pub from_base64_url : Text → Settled Bytes
unfolding from_base64 replace_char
from_base64_url value = from_base64 (replace_char b'_' b'/' (replace_char b'-' b'+' value))

-- The payload that `registerShare` encrypts for the owner.
unfoldable pub owner_blob_payload : ShareMaterial → Value
unfolding base64_url to_base64
owner_blob_payload material = obj (
    entry "share_id" (str (base64_url material.share_id)) (
      entry "share_content_key" (str (to_base64 material.content_key))
        (entry "share_path" (str material.share_path) end)))

unfoldable pub parse_owner_blob_payload : Value → Settled ShareMaterial
unfolding object_record string_field from_base64_url from_base64
parse_owner_blob_payload v = object_record v (codes "share owner blob") >>= λ fields.
    string_field fields "share_id" (codes "share owner blob") >>= λ id.
    from_base64_url id >>= λ share_id.
    string_field fields "share_content_key" (codes "share owner blob") >>= λ key.
    from_base64 key >>= λ content_key.
    string_field fields "share_path" (codes "share owner blob") >>= λ share_path.
    fulfilled (record { share_id = share_id; content_key = content_key; share_path = share_path })

abbrev pub max_grant_length : ℕ
max_grant_length = 512

pub record SharedReference : Type 0 where
  pub id : Text
  pub content_key : Bytes
  pub grant : Text

-- A character of [A-Za-z0-9_-].
unfoldable pub is_url_char : ℕ → Bool
is_url_char c =
    (leb b'A' c && leb c b'Z')
    || (leb b'a' c && leb c b'z')
    || (leb b'0' c && leb c b'9')
    || c == b'_'
    || c == b'-'

-- The pattern BASE64URL.
unfoldable pub is_base64_url : Text → Bool
unfolding all_chars is_url_char
is_base64_url [] = false
is_base64_url (c ∷ cs) = all_chars is_url_char (c ∷ cs)

unfoldable pub decode_base64_url : Text → Settled Bytes
unfolding is_base64_url from_base64_url
decode_base64_url value =
    if not (is_base64_url value)
    then rejected (error (codes "invalid base64url"))
    else from_base64_url value

-- The decoded parts, where a failure of either is caught.
reference_of : Text → Text → Settled Bytes → Settled Bytes → Option SharedReference
reference_of id grant (fulfilled share_id) (fulfilled content_key) =
    if (length share_id == 32) && (length content_key == 128)
    then some (record { id = id; content_key = content_key; grant = grant })
    else none
reference_of id grant _ _ = none

reference_in : Option Text → Option Text → Option Text → Option SharedReference
unfolding is_base64_url decode_base64_url reference_of
reference_in (some id) (some key) (some grant) =
    if same id []
      || same key []
      || same grant []
      || not (is_base64_url id)
      || not (is_base64_url grant)
      || ltb max_grant_length (length grant)
    then none
    else reference_of id grant (decode_base64_url id) (decode_base64_url key)
reference_in _ _ _ = none

-- `hash.startsWith("#") ? hash.slice(1) : hash`.
without_hash : Text → Text
without_hash [] = []
without_hash (c ∷ cs) = if c == b'#' then cs else c ∷ cs

module _ (params : SearchParams) where
  -- The hash of the link that `shareUrl` gives for a grant.
  unfoldable pub share_url_hash : ShareMaterial → Text → Text
  unfolding base64_url
  share_url_hash share grant =
      b'#'
      ∷ params.to_text (
          (codes "id", base64_url share.share_id)
          ∷ (codes "key", base64_url share.content_key)
          ∷ (codes "grant", grant)
          ∷ [])

  unfoldable pub parse_shared_reference : Text → Option SharedReference
  unfolding reference_in without_hash
  parse_shared_reference hash =
      let text = without_hash hash in
      reference_in (params.get text (codes "id")) (params.get text (codes "key"))
        (params.get text (codes "grant"))
