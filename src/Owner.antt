-- ===== src/Owner.antt =====
-- worker/ownerEndpoint.ts, worker/catalogEndpoint.ts and worker/libraryEndpoint.ts: the reads of the
-- owner row and of the library.
pub mod Reading
use txt.Prelude.{ℕ, Option, none, some, List, [], ◌∷◌, map, Text, Bytes, codes}
use txt.Base64.{base64_encode, base64_decode, base64_url_encode}
use txt.Json.{Value, str, arr, obj, Fields, end, entry, items_of}
use txt.Errors.{plain}
use txt.Database.{Database, Owner, Catalog, Bookmark}
use txt.Database.Keys.{wrapped_key_of}
use txt.Database.Bookmarks.{select_summary}
use txt.Bookmarks.{bookmark_summary_json}
use txt.Documents.{DocumentRow, document_json, select_recent_access}
use txt.Effects.{ok, Statement, then_statement, Program, returns, throws, ◌>>=◌, ◌>>◌, query}
use txt.Http.{Response, respond, respond_json, Env}
use txt.Platform.{Platform}
use txt.Ticket.{issue_ticket, TicketSubject}

unfoldable pub select_owner : Statement (Option Owner)
select_owner db = ok db.owner db

unfoldable pub ticket_subject : Owner → Text → Bytes → TicketSubject
ticket_subject row email jti = record {
  sub = email;
  jti = base64_url_encode jti;
  user_handle_hash = base64_url_encode row.user_handle_hash;
  sign_public_key = base64_url_encode row.sign_public_key;
  db_binding_hash = base64_url_encode row.db_prefix_hash;
}

owner_json : Owner → Text → Value
owner_json row ticket = obj (
    entry "wrapped_umk" (str (base64_encode row.wrapped_umk)) (
      entry "sign_public_key" (str (base64_encode row.sign_public_key)) (
        entry "wrapped_sign_private_key" (str (base64_encode row.wrapped_sign_private_key)) (
          entry "kem_public_key" (str (base64_encode row.kem_public_key)) (
            entry "wrapped_kem_private_key" (str (base64_encode row.wrapped_kem_private_key)) (
              entry "encrypted_credentials" (str (base64_encode row.encrypted_credentials))
                (entry "ticket" (str ticket) end)))))))

module _ (platform : Platform) where
  owner_response : Env → Text → Bytes → ℕ → Option Owner → Program Response
  unfolding owner_json
  owner_response env email jti now none = do
    _ ← query select_owner
    returns (respond (codes "Unauthorized") 401)
  owner_response env email jti now (some row) = elim (base64_decode env.ticket_signing_key) [
    | none ↦ throws (plain (codes "InvalidCharacterError"))
    | some key ↦ returns (
        respond_json
          (owner_json row (issue_ticket platform (ticket_subject row email jti) key now)))
  ]

  -- `jti` is 32 random bytes, `now` the clock in seconds.
  unfoldable pub handle_get_owner : Env → Text → Bytes → ℕ → Program Response
  unfolding owner_response
  handle_get_owner env email jti now =
      query select_owner >>= λ row. owner_response env email jti now row

catalog_with : Catalog → Option Bytes → Option (Catalog × Bytes)
catalog_with catalog none = none
catalog_with catalog (some wrapped) = some (catalog, wrapped)

catalog_row : Option Catalog → Database → Option (Catalog × Bytes)
unfolding catalog_with
catalog_row none db = none
catalog_row (some catalog) db = catalog_with catalog (wrapped_key_of catalog.key_id db)

-- CATALOG_QUERY.
unfoldable pub select_catalog : Statement (Option (Catalog × Bytes))
unfolding catalog_row
select_catalog db = ok (catalog_row db.catalog db) db

catalog_json : Option (Catalog × Bytes) → Value
catalog_json none = Value.null
catalog_json (some (row, key_wrapped)) = obj (
    entry "key_wrapped" (str (base64_encode key_wrapped))
      (entry "catalog_blob" (str (base64_encode row.catalog_blob)) end))

-- The batch of three reads.
library_batch :
    Statement (List DocumentRow × Option (Catalog × Bytes) × List ((Bookmark × Bytes) × ℕ))
library_batch db = then_statement (select_recent_access db) (λ documents after.
    then_statement (select_catalog after) (λ catalog later.
      then_statement (select_summary later)
        (λ summaries end. ok (documents, catalog, summaries) end)))

unfoldable pub handle_get_library : Program Response
unfolding library_batch catalog_json
handle_get_library = query library_batch >>= λ (documents, catalog, summaries). returns (
    respond_json (
      obj (
        entry "documents" (arr (items_of (map document_json documents))) (
          entry "catalog" (catalog_json catalog) (
            entry "summaries" (arr (items_of (map bookmark_summary_json summaries))) Fields.end)))))
