-- ===== src/Browser/Records.antt =====
-- ui/src/data/apiClient.ts: what the browser reads from the worker's answers.
pub mod RoundTrip
use txt.Prelude.{
  String, ℕ, Bool, true, false, ◌||◌, Option, none, some, List, [], ◌∷◌, Text, Bytes, codes, same,
  if◌then◌else◌,
}
use txt.Json.{Number, Value, null, arr, Fields, Items, nil, cons, field}
use txt.Browser.Failures.{Settled, fulfilled, rejected, error, ◌>>=◌}
use txt.Browser.Validation.{
  object_record, object_field, string_field, number_field, bytes_field, nullable_bytes_field,
}

pub record OwnerRecord : Type 0 where
  pub wrapped_umk : Bytes
  pub sign_public_key : Bytes
  pub wrapped_sign_private_key : Bytes
  pub kem_public_key : Bytes
  pub wrapped_kem_private_key : Bytes
  pub encrypted_credentials : Bytes
  pub ticket : Text

pub record DocumentRow : Type 0 where
  pub id : Number
  pub created_at : Number
  pub access_blob : Option Bytes
  pub access_version : Number
  pub access_key_wrapped : Option Bytes

pub record DocumentContent : Type 0 where
  pub content_blob : Bytes
  pub content_key_wrapped : Bytes

pub record CatalogRow : Type 0 where
  pub key_wrapped : Bytes
  pub catalog_blob : Bytes

pub record BookmarkRow : Type 0 where
  pub id : Number
  pub created_at : Number
  pub key_wrapped : Bytes
  pub bookmark_blob : Bytes

pub record BookmarkSummaryRow : Type 0 where
  pub id : Number
  pub document_id : Number
  pub count : Number
  pub key_wrapped : Bytes
  pub bookmark_blob : Bytes
  pub created_at : Number

pub record ShareRow : Type 0 where
  pub share_id_hash : Bytes
  pub document_id : Number
  pub key_wrapped : Bytes
  pub owner_blob : Bytes
  pub state : Text
  pub created_at : Number

pub record LibraryResponse : Type 0 where
  pub documents : List DocumentRow
  pub catalog : Option CatalogRow
  pub summaries : List BookmarkSummaryRow

unfoldable pub parse_owner_record : Value → Settled OwnerRecord
parse_owner_record v = do
  let label = codes "owner response"
  data_ ← object_record v label
  wrapped_umk ← bytes_field data_ "wrapped_umk" label
  sign_public_key ← bytes_field data_ "sign_public_key" label
  wrapped_sign_private_key ← bytes_field data_ "wrapped_sign_private_key" label
  kem_public_key ← bytes_field data_ "kem_public_key" label
  wrapped_kem_private_key ← bytes_field data_ "wrapped_kem_private_key" label
  encrypted_credentials ← bytes_field data_ "encrypted_credentials" label
  ticket ← string_field data_ "ticket" label
  fulfilled (record {
    wrapped_umk = wrapped_umk;
    sign_public_key = sign_public_key;
    wrapped_sign_private_key = wrapped_sign_private_key;
    kem_public_key = kem_public_key;
    wrapped_kem_private_key = wrapped_kem_private_key;
    encrypted_credentials = encrypted_credentials;
    ticket = ticket;
  })

unfoldable pub parse_document_row : Value → Settled DocumentRow
parse_document_row v = do
  let label = codes "document row"
  data_ ← object_record v label
  id ← number_field data_ "id" label
  created_at ← number_field data_ "created_at" label
  access_blob ← nullable_bytes_field data_ "access_blob" label
  access_version ← number_field data_ "access_version" label
  access_key_wrapped ← nullable_bytes_field data_ "access_key_wrapped" label
  fulfilled (record {
    id = id;
    created_at = created_at;
    access_blob = access_blob;
    access_version = access_version;
    access_key_wrapped = access_key_wrapped;
  })

unfoldable pub parse_document_content : Value → Settled DocumentContent
parse_document_content v = do
  let label = codes "document content"
  data_ ← object_record v label
  content_blob ← bytes_field data_ "content_blob" label
  content_key_wrapped ← bytes_field data_ "content_key_wrapped" label
  fulfilled (record { content_blob = content_blob; content_key_wrapped = content_key_wrapped })

unfoldable pub parse_catalog_row : Value → Settled CatalogRow
parse_catalog_row v = do
  let label = codes "catalog row"
  data_ ← object_record v label
  key_wrapped ← bytes_field data_ "key_wrapped" label
  catalog_blob ← bytes_field data_ "catalog_blob" label
  fulfilled (record { key_wrapped = key_wrapped; catalog_blob = catalog_blob })

unfoldable pub parse_bookmark_row : Value → Settled BookmarkRow
parse_bookmark_row v = do
  let label = codes "bookmark row"
  data_ ← object_record v label
  id ← number_field data_ "id" label
  created_at ← number_field data_ "created_at" label
  key_wrapped ← bytes_field data_ "key_wrapped" label
  bookmark_blob ← bytes_field data_ "bookmark_blob" label
  fulfilled (record {
    id = id;
    created_at = created_at;
    key_wrapped = key_wrapped;
    bookmark_blob = bookmark_blob;
  })

unfoldable pub parse_bookmark_summary_row : Value → Settled BookmarkSummaryRow
parse_bookmark_summary_row v = do
  let label = codes "bookmark summary row"
  data_ ← object_record v label
  id ← number_field data_ "id" label
  document_id ← number_field data_ "document_id" label
  count ← number_field data_ "count" label
  key_wrapped ← bytes_field data_ "key_wrapped" label
  bookmark_blob ← bytes_field data_ "bookmark_blob" label
  created_at ← number_field data_ "created_at" label
  fulfilled (record {
    id = id;
    document_id = document_id;
    count = count;
    key_wrapped = key_wrapped;
    bookmark_blob = bookmark_blob;
    created_at = created_at;
  })

valid_state : Text → Settled Text
valid_state state =
    if same state (codes "creating") || same state (codes "active") || same state (codes "deleting")
    then fulfilled state
    else rejected (error (codes "share row has an invalid state"))

unfoldable pub parse_share_row : Value → Settled ShareRow
unfolding valid_state
parse_share_row v = do
  let label = codes "share row"
  data_ ← object_record v label
  text ← string_field data_ "state" label
  state ← valid_state text
  share_id_hash ← bytes_field data_ "share_id_hash" label
  document_id ← number_field data_ "document_id" label
  key_wrapped ← bytes_field data_ "key_wrapped" label
  owner_blob ← bytes_field data_ "owner_blob" label
  created_at ← number_field data_ "created_at" label
  fulfilled (record {
    share_id_hash = share_id_hash;
    document_id = document_id;
    key_wrapped = key_wrapped;
    owner_blob = owner_blob;
    state = state;
    created_at = created_at;
  })

-- `items.map(parse)`: the first that throws ends it.
unfoldable pub parse_items : {A : Type 0} → (Value → Settled A) → Items → Settled (List A)
parse_items parse nil = fulfilled []
parse_items parse (cons v items) = do
  a ← parse v
  rest ← parse_items parse items
  fulfilled (a ∷ rest)

-- `Array.isArray(data[key])`.
array_in : Option Value → Text → Settled Items
array_in (some (arr items)) label = fulfilled items
array_in _ label = rejected (error label)

unfoldable pub parse_array :
    {A : Type 0} → (Value → Settled A) → Fields → String → Text → Settled (List A)
unfolding array_in parse_items
parse_array parse fields key label = array_in (field key fields) label >>= parse_items parse

catalog_in : Option Value → Settled (Option CatalogRow)
unfolding parse_catalog_row
catalog_in (some null) = fulfilled none
catalog_in (some v) = parse_catalog_row v >>= λ row. fulfilled (some row)
catalog_in none = parse_catalog_row null >>= λ row. fulfilled (some row)

-- fetchLibrary's body: both arrays are checked before any row is parsed.
unfoldable pub parse_library : Value → Settled LibraryResponse
unfolding array_in parse_items parse_document_row catalog_in parse_bookmark_summary_row
parse_library v = do
  data_ ← object_record v (codes "library response")
  documents ← array_in (field "documents" data_) (codes "library response is missing documents")
  summaries ← array_in (field "summaries" data_) (codes "library response is missing summaries")
  document_rows ← parse_items parse_document_row documents
  catalog ← catalog_in (field "catalog" data_)
  summary_rows ← parse_items parse_bookmark_summary_row summaries
  fulfilled (record { documents = document_rows; catalog = catalog; summaries = summary_rows })

unfoldable pub parse_bookmarks : Value → Settled (List BookmarkRow)
unfolding parse_array parse_bookmark_row
parse_bookmarks v = do
  data_ ← object_record v (codes "bookmarks response")
  parse_array parse_bookmark_row data_ "bookmarks" (codes "bookmarks response is missing bookmarks")

unfoldable pub parse_summaries : Value → Settled (List BookmarkSummaryRow)
unfolding parse_array parse_bookmark_summary_row
parse_summaries v = do
  data_ ← object_record v (codes "bookmarks summary response")
  parse_array parse_bookmark_summary_row data_ "summaries"
      (codes "bookmarks summary response is missing summaries")

unfoldable pub parse_shares : Value → Settled (List ShareRow)
unfolding parse_array parse_share_row
parse_shares v = do
  data_ ← object_record v (codes "shares response")
  parse_array parse_share_row data_ "shares" (codes "shares response is missing shares")

-- An R2 credential set, with its expiry as the number that it is.
pub record Credential : Type 0 where
  pub access_key_id : Text
  pub secret_access_key : Text
  pub session_token : Text

pub record CredentialSet : Type 0 where
  pub endpoint : Text
  pub bucket : Text
  pub expires_at : Number
  pub documents : Credential
  pub catalog : Credential

parse_r2_temp_credential : Fields → String → Settled Credential
parse_r2_temp_credential fields key = do
  let label = codes "R2 credential"
  credential ← object_field fields key label
  access_key_id ← string_field credential "access_key_id" label
  secret_access_key ← string_field credential "secret_access_key" label
  session_token ← string_field credential "session_token" label
  fulfilled (record {
    access_key_id = access_key_id;
    secret_access_key = secret_access_key;
    session_token = session_token;
  })

unfoldable pub parse_r2_credential_set : Value → Settled CredentialSet
unfolding parse_r2_temp_credential
parse_r2_credential_set v = do
  let label = codes "R2 credential response"
  data_ ← object_record v label
  endpoint ← string_field data_ "endpoint" label
  bucket ← string_field data_ "bucket" label
  expires_at ← number_field data_ "expires_at" label
  documents ← parse_r2_temp_credential data_ "documents"
  catalog ← parse_r2_temp_credential data_ "catalog"
  fulfilled (record {
    endpoint = endpoint;
    bucket = bucket;
    expires_at = expires_at;
    documents = documents;
    catalog = catalog;
  })
