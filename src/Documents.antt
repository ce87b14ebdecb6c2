-- ===== src/Documents.antt =====
-- worker/documentsEndpoint.ts: one document's row and content, and the three writes of its reading
-- state, under optimistic concurrency on access_version.
pub mod Ownership
pub mod Reading
pub mod Views
pub mod Refinement
pub mod Conflicts
use txt.Prelude.{
  ℕ, suc, ◌+◌, ◌==◌, Bool, Option, none, some, List, [], ◌∷◌, map, Text, Bytes, codes,
  if◌then◌else◌,
}
use txt.Base64.{base64_encode, base64_decode}
use txt.Json.{
  ℤ, pos, negsuc, Number, int, Value, null, num, str, obj, Fields, end, entry, nat, field,
  as_string, as_integer,
}
use txt.Database.{Document, Database, access_key}
use txt.Database.Keys.{wrapped_key_of, insert_key, delete_key}
use txt.Database.Documents.{is_null, find_document, update_access, set_access_key, clear_access}
use txt.Effects.{
  World, Reply, ok, failed, Statement, then_statement, Program, returns, throws, ◌>>=◌, ◌>>◌, query,
}
use txt.Http
use txt.Http.{Response, respond, respond_json, Checked, rejected, accepted, or_reject}
use txt.Platform.{Platform}

pub record DocumentRow : Type 0 where
  pub id : ℕ
  pub created_at : ℕ
  pub access_blob : Option Bytes
  pub access_version : ℕ
  pub access_key_wrapped : Option Bytes

-- `bytes === null ? null : base64Encode(bytes)`.
unfoldable pub nullable_base64 : Option Bytes → Value
nullable_base64 none = null
nullable_base64 (some bytes) = str (base64_encode bytes)

unfoldable pub document_json : DocumentRow → Value
unfolding nullable_base64
document_json row = obj (
    entry "id" (nat row.id) (
      entry "created_at" (nat row.created_at) (
        entry "access_blob" (nullable_base64 row.access_blob) (
          entry "access_version" (nat row.access_version)
            (entry "access_key_wrapped" (nullable_base64 row.access_key_wrapped) end)))))

joined_key : Option ℕ → Database → Option Bytes
joined_key none db = none
joined_key (some id) db = wrapped_key_of id db

-- DOCUMENT_ACCESS_QUERY, a LEFT JOIN.
unfoldable pub select_document : ℕ → Statement (Option DocumentRow)
unfolding joined_key
select_document id db =
    ok
      (elim (find_document id db) [
        | none ↦ none
        | some d ↦ some (record {
          id = d.id;
          created_at = d.created_at;
          access_blob = d.access_blob;
          access_version = d.access_version;
          access_key_wrapped = joined_key d.access_key_id db;
        })
      ])
      db

row_with_key : Document → Option Bytes → List DocumentRow → List DocumentRow
row_with_key d none rows = rows
row_with_key d (some wrapped) rows =
    record {
      id = d.id;
      created_at = d.created_at;
      access_blob = d.access_blob;
      access_version = d.access_version;
      access_key_wrapped = some wrapped;
    }
    ∷ rows

-- RECENT_ACCESS_QUERY, an inner JOIN: the rows of `documents` are listed by id.
recent_rows : List Document → Database → List DocumentRow
unfolding joined_key row_with_key
recent_rows [] db = []
recent_rows (d ∷ ds) db = row_with_key d (joined_key d.access_key_id db) (recent_rows ds db)

unfoldable pub select_recent_access : Statement (List DocumentRow)
unfolding recent_rows
select_recent_access db = ok (recent_rows db.documents db) db

-- CONTENT_QUERY, an inner JOIN: the blob and the wrapped key.
select_content : ℕ → Statement (Option (Bytes × Bytes))
select_content id db =
    ok
      (elim (find_document id db) [
        | none ↦ none
        | some d ↦ elim (wrapped_key_of d.content_key_id db) [
          | none ↦ none
          | some wrapped ↦ some (d.content_blob, wrapped)
        ]
      ])
      db

-- `Number.isInteger(id) && id > 0`.
unfoldable pub positive : Number → Option ℕ
positive (int (pos (suc n))) = some (suc n)
positive _ = none

document_or_404 : Option DocumentRow → Response
unfolding document_json
document_or_404 none = respond (codes "document not found") 404
document_or_404 (some row) = respond_json (document_json row)

content_or_404 : Option (Bytes × Bytes) → Response
content_or_404 none = respond (codes "document not found") 404
content_or_404 (some (blob, wrapped)) = respond_json (
    obj (
      entry "content_blob" (str (base64_encode blob))
        (entry "content_key_wrapped" (str (base64_encode wrapped)) end)))

pub data AccessWrite : Type 0 where
  clear : AccessWrite
  update : Bytes → AccessWrite
  first : Bytes → Bytes → AccessWrite

unfoldable pub first_or_update : Bytes → Option Value → Option AccessWrite
first_or_update blob none = some (update blob)
first_or_update blob (some (str text)) = elim (base64_decode text) [
  | none ↦ none
  | some wrapped ↦ some (first blob wrapped)
]
first_or_update blob (some v) = none

unfoldable pub write_of_blob : Option Value → Option Value → Option AccessWrite
unfolding first_or_update
write_of_blob none key = some clear
write_of_blob (some (str text)) key = elim (base64_decode text) [
  | none ↦ none
  | some blob ↦ first_or_update blob key
]
write_of_blob (some v) key = none

unfoldable pub parse_access_write : Fields → Option AccessWrite
unfolding write_of_blob
parse_access_write body = write_of_blob (field "access_blob" body) (field "access_key_wrapped" body)

-- SELECT 1 FROM documents WHERE id = ?.
document_exists : ℕ → Statement Bool
document_exists id db =
    ok (elim (find_document id db) [ none ↦ Bool.false | some d ↦ Bool.true ]) db

conflict_or_not_found : ℕ → Program Response
unfolding document_exists
conflict_or_not_found id = do
  exists ← query (document_exists id)
  returns (
      if exists
      then respond (codes "access_version conflict") 412
      else respond (codes "document not found") 404)

version_response : ℕ → Response
version_response version = respond_json (obj (entry "access_version" (nat (version + 1)) end))

update_document_access : ℕ → ℕ → Bytes → Program Response
unfolding conflict_or_not_found version_response
update_document_access id version blob = do
  changes ← query (update_access id version blob)
  if changes == 0 then conflict_or_not_found id else returns (version_response version)

-- The batch of two statements: the key's id, and the documents that the second one changed.
first_access_batch : ℕ → ℕ → Bytes → Bytes → ℕ → Statement (ℕ × ℕ)
first_access_batch id version blob wrapped now db =
    then_statement (insert_key access_key wrapped now db) (λ key inserted.
      then_statement (set_access_key key id version blob inserted)
        (λ changes after. ok (key, changes) after))

first_access_write : ℕ → ℕ → Bytes → Bytes → ℕ → Program Response
unfolding first_access_batch conflict_or_not_found version_response
first_access_write id version blob wrapped now =
    query (first_access_batch id version blob wrapped now) >>= λ (key, changes).
    if changes == 0
    then query (delete_key key) >> conflict_or_not_found id
    else returns (version_response version)

clear_document_access : ℕ → ℕ → Program Response
unfolding conflict_or_not_found version_response
clear_document_access id version = do
  changes ← query (clear_access id version)
  if changes == 0 then conflict_or_not_found id else returns (version_response version)

write_access : ℕ → ℕ → AccessWrite → ℕ → Program Response
unfolding update_document_access first_access_write clear_document_access
write_access id version clear now = clear_document_access id version
write_access id version (first blob wrapped) now = first_access_write id version blob wrapped now
write_access id version (update blob) now = update_document_access id version blob

-- `typeof v === "number" && Number.isInteger(v) && v >= 0`.
non_negative : Option ℤ → Option ℕ
non_negative (some (pos n)) = some n
non_negative _ = none

-- The checks of a handler on its path parameter.
document_id : Number → Checked ℕ
unfolding positive
document_id id = or_reject (positive id) (respond (codes "invalid document id") 400)

get_document : Checked ℕ → Program Response
unfolding document_or_404
get_document (rejected r) = returns r
get_document (accepted id) = query (select_document id) >>= λ row. returns (document_or_404 row)

get_content : Checked ℕ → Program Response
unfolding content_or_404 select_content
get_content (rejected r) = returns r
get_content (accepted id) = query (select_content id) >>= λ row. returns (content_or_404 row)

-- The id, the expected version and the write of a PATCH.
unfoldable pub parse_patch : Number → Fields → Checked (ℕ × ℕ × AccessWrite)
unfolding document_id non_negative parse_access_write
parse_patch id_param body = Http.◌>>=◌ (document_id id_param) λ id.
    Http.◌>>=◌
      (or_reject (non_negative (as_integer (field "access_version" body)))
        (respond (codes "missing or invalid access_version") 400))
      λ version.
        Http.◌>>=◌
          (or_reject (parse_access_write body)
            (respond (codes "missing or invalid access_blob/access_key_wrapped") 400))
          λ write. accepted (id, version, write)

patch_document : Checked (ℕ × ℕ × AccessWrite) → ℕ → Program Response
unfolding write_access
patch_document (rejected r) now = returns r
patch_document (accepted (id, version, write)) now = write_access id version write now

module _ (platform : Platform) where
  unfoldable pub handle_get_document : Text → Program Response
  unfolding get_document document_id
  handle_get_document id_param = get_document (document_id (platform.number_of id_param))

  unfoldable pub handle_get_document_content : Text → Program Response
  unfolding get_content document_id
  handle_get_document_content id_param = get_content (document_id (platform.number_of id_param))

  -- `now` is the reading of the clock by the insert of a first write.
  unfoldable pub handle_patch_document_access : Text → Fields → ℕ → Program Response
  unfolding patch_document parse_patch
  handle_patch_document_access id_param body now =
      patch_document (parse_patch (platform.number_of id_param) body) now
