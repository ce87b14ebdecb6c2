-- ===== src/Tests/Records.antt =====
-- Tests of the writes of reading state and of the bookmarks.
use txt.Prelude.{◌≡◌, refl, [], ◌∷◌, codes, keep, not, ◌==◌}
use txt.Base64.{base64_decode}
use txt.Json.{Value, str, int, pos, nat, Fields, end, entry, field, as_integer}
use txt.Effects.{World, run, Returns}
use txt.Http.{accepted, respond_json}
use txt.Documents.{
  AccessWrite, clear, first, parse_patch, parse_access_write, handle_patch_document_access,
  positive,
}
use txt.Documents.Ownership.{handle_patch_document_access-IsOwned}
use txt.Documents.Views.{views}
use txt.Documents.Refinement.{Refines, handle_patch_document_access-Refines}
use txt.Documents.Conflicts.{handle_patch_document_access-IsExclusive}
use txt.Database.Keys.{insert_key}
use txt.Database.Documents.{set_access_key}
use txt.Database.Ownership.{IsOwned}
use txt.Database.BookmarkKeys.{IsCapped}
use txt.Bookmarks.{NewBookmark, handle_delete_bookmark}
use txt.Bookmarks.Laws.{handle_delete_bookmark-Deleted}
use txt.Tests.Data.{platform, world, db-IsOwned, db-HasDistinctIds, db-IsCapped}

-- A first write of the octets `ab` under the key `cd`, at version 0.
abbrev first_body : Fields
first_body =
    entry "access_version" (nat 0) (
      entry "access_blob" (str (codes "YWI="))
        (entry "access_key_wrapped" (str (codes "Y2Q=")) end))

abbrev clear_body : Fields
clear_body = entry "access_version" (nat 0) end

abbrev first_write : AccessWrite
first_write = first (97 ∷ 98 ∷ []) (99 ∷ 100 ∷ [])

first_parsed : parse_patch (int (pos 7)) first_body ≡ accepted (7, 0, first_write)
unfolding parse_patch parse_access_write field as_integer base64_decode positive
first_parsed = refl

clear_parsed : parse_patch (int (pos 7)) clear_body ≡ accepted (7, 0, clear)
unfolding parse_patch parse_access_write field as_integer positive
clear_parsed = refl

handle_patch_document_access-Refines_example :
    Refines 7 0 first_write world (handle_patch_document_access platform (codes "7") first_body 100)
handle_patch_document_access-Refines_example =
    handle_patch_document_access-Refines platform (codes "7") first_body 7 0 first_write 100 world
      first_parsed db-IsOwned

handle_patch_document_access-IsOwned_example :
    Returns
      (λ response after. IsOwned after.db)
      (run (handle_patch_document_access platform (codes "7") first_body 100) world)
handle_patch_document_access-IsOwned_example =
    handle_patch_document_access-IsOwned platform (codes "7") first_body 100 world db-IsOwned
      db-HasDistinctIds

-- The world after the first write.
abbrev written_world : World
written_world = (run (handle_patch_document_access platform (codes "7") first_body 100) world).1

handle_patch_document_access-IsExclusive_example :
    Returns
      (λ refused end. (refused.status ≡ 412) × (views end.db ≡ views written_world.db))
      (run (handle_patch_document_access platform (codes "7") clear_body 101) written_world)
unfolding handle_patch_document_access as_integer field base64_decode insert_key set_access_key
handle_patch_document_access-IsExclusive_example =
    handle_patch_document_access-IsExclusive platform (codes "7") (codes "7") first_body clear_body
      7 0 100 101 first_write clear world written_world
      (respond_json (Value.obj (entry "access_version" (nat 1) end))) first_parsed clear_parsed
      db-IsOwned db-HasDistinctIds refl refl

abbrev bookmark_body : Fields
bookmark_body =
    entry "document_id" (nat 7)
      (entry "key_wrapped" (str (codes "Y2Q=")) (entry "bookmark_blob" (str (codes "YWI=")) end))

abbrev new_bookmark : NewBookmark
new_bookmark = record {
  document_id = pos 7;
  key_wrapped = 99 ∷ 100 ∷ [];
  bookmark_blob = 97 ∷ 98 ∷ [];
}

handle_delete_bookmark-Deleted_example :
    Returns
      (λ response after.
        (response.status ≡ 204)
        × (after.db.bookmarks ≡ keep (λ b. not (b.id == 7)) world.db.bookmarks)
        × (after.db.documents ≡ world.db.documents)
        × IsOwned after.db
        × IsCapped after.db)
      (run (handle_delete_bookmark platform (codes "7")) world)
handle_delete_bookmark-Deleted_example =
    handle_delete_bookmark-Deleted platform (codes "7") 7 world (unfold positive in refl) db-IsOwned
      db-IsCapped
