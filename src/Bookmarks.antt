-- ===== src/Bookmarks.antt =====
-- worker/bookmarksEndpoint.ts: the listing of one document's bookmarks, the summary, and the two
-- mutations.
pub mod Reading
pub mod Laws
use txt.Prelude.{
  ℕ, suc, ◌==◌, Bool, Option, none, some, List, [], ◌∷◌, map, Text, Bytes, codes, if◌then◌else◌,
}
use txt.Base64.{base64_encode, base64_decode}
use txt.Json.{
  ℤ, pos, Number, int, Value, str, arr, obj, Fields, end, entry, nat, field, as_string, as_integer,
  items_of,
}
use txt.Errors.{Error, is_foreign_key_violation}
use txt.Database.{Bookmark, Database, bookmark_key}
use txt.Database.Keys.{insert_key}
use txt.Database.Bookmarks.{select_bookmarks, select_summary, insert_bookmark, delete_bookmark}
use txt.Documents.{positive}
use txt.Effects.{Statement, then_statement, Program, returns, throws, ◌>>=◌, ◌>>◌, query, catch}
use txt.Http.{
  Response, respond, respond_empty, respond_json, Checked, rejected, accepted, or_reject,
}
use txt.Http
use txt.Platform.{Platform}

bookmark_json : Bookmark × Bytes → Value
bookmark_json (row, key_wrapped) = obj (
    entry "id" (nat row.id) (
      entry "created_at" (nat row.created_at) (
        entry "key_wrapped" (str (base64_encode key_wrapped))
          (entry "bookmark_blob" (str (base64_encode row.bookmark_blob)) end))))

unfoldable pub bookmark_summary_json : (Bookmark × Bytes) × ℕ → Value
bookmark_summary_json ((row, key_wrapped), count) = obj (
    entry "id" (nat row.id) (
      entry "document_id" (nat row.document_id) (
        entry "count" (nat count) (
          entry "key_wrapped" (str (base64_encode key_wrapped)) (
            entry "bookmark_blob" (str (base64_encode row.bookmark_blob))
              (entry "created_at" (nat row.created_at) end))))))

get_bookmarks : Checked ℕ → Program Response
unfolding bookmark_json
get_bookmarks (rejected r) = returns r
get_bookmarks (accepted id) = do
  rows ← query (select_bookmarks id)
  returns (respond_json (obj (entry "bookmarks" (arr (items_of (map bookmark_json rows))) end)))

unfoldable pub handle_get_bookmarks_summary : Program Response
unfolding bookmark_summary_json
handle_get_bookmarks_summary = do
  rows ← query select_summary
  returns
      (respond_json (obj (entry "summaries" (arr (items_of (map bookmark_summary_json rows))) end)))

pub record NewBookmark : Type 0 where
  pub document_id : ℤ
  pub key_wrapped : Bytes
  pub bookmark_blob : Bytes

decode_bookmark : ℤ → Text → Text → Checked NewBookmark
decode_bookmark doc key blob =
    let malformed = respond (codes "malformed key_wrapped/bookmark_blob") 400 in
    Http.◌>>=◌ (or_reject (base64_decode key) malformed) λ key_wrapped.
      Http.◌>>=◌ (or_reject (base64_decode blob) malformed) λ bookmark_blob.
        accepted
          (record { document_id = doc; key_wrapped = key_wrapped; bookmark_blob = bookmark_blob })

unfoldable pub parse_bookmark_body : Fields → Checked NewBookmark
unfolding decode_bookmark
parse_bookmark_body body =
    let missing = respond (codes "missing or invalid document_id/key_wrapped/bookmark_blob") 400 in
    Http.◌>>=◌ (or_reject (as_integer (field "document_id" body)) missing) λ doc.
      Http.◌>>=◌ (or_reject (as_string (field "key_wrapped" body)) missing) λ key.
        Http.◌>>=◌ (or_reject (as_string (field "bookmark_blob" body)) missing)
          λ blob. decode_bookmark doc key blob

-- The batch of insertBookmark; `key_now` and `now` are its two readings of the clock.
unfoldable pub insert_bookmark_batch : NewBookmark → ℕ → ℕ → Statement ℕ
insert_bookmark_batch b key_now now db =
    then_statement (insert_key bookmark_key b.key_wrapped key_now db)
      (λ key. insert_bookmark b.document_id now key b.bookmark_blob)

bookmark_failed : Error → Program Response
bookmark_failed error =
    if is_foreign_key_violation error
    then returns (respond (codes "invalid document_id") 400)
    else throws error

post_bookmark : Checked NewBookmark → ℕ → ℕ → Program Response
unfolding insert_bookmark_batch bookmark_failed
post_bookmark (rejected r) key_now now = returns r
post_bookmark (accepted b) key_now now =
    catch
      (query (insert_bookmark_batch b key_now now) >>= λ id.
        returns (respond_json (obj (entry "id" (nat id) end))))
      bookmark_failed

unfoldable pub handle_post_bookmark : Fields → ℕ → ℕ → Program Response
unfolding post_bookmark
handle_post_bookmark body key_now now = post_bookmark (parse_bookmark_body body) key_now now

delete_checked : Checked ℕ → Program Response
delete_checked (rejected r) = returns r
delete_checked (accepted id) = query (delete_bookmark id) >> returns (respond_empty 204)

module _ (platform : Platform) where
  -- `Number(url.searchParams.get("document_id"))`: 0 where it is absent.
  document_id_param : Option Text → Number
  document_id_param none = int (pos 0)
  document_id_param (some text) = platform.number_of text

  unfoldable pub handle_get_bookmarks : Option Text → Program Response
  unfolding get_bookmarks positive document_id_param
  handle_get_bookmarks param = get_bookmarks (
      or_reject (positive (document_id_param param))
        (respond (codes "missing or invalid document_id") 400))

  unfoldable pub handle_delete_bookmark : Text → Program Response
  unfolding delete_checked positive
  handle_delete_bookmark id_param = delete_checked (
      or_reject (positive (platform.number_of id_param))
        (respond (codes "invalid bookmark id") 400))
