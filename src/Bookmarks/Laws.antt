-- ===== src/Bookmarks/Laws.antt =====
-- worker/bookmarksEndpoint.ts: the two mutations, on every branch.
use txt.Prelude.{ℕ, ◌≡◌, refl, ◌⊎◌, none, some, ◌∷◌, Text, ◌==◌, not, keep}
use txt.Effects.{World, Reply, ok, Returns, run, returns, ◌>>◌, commit, answer}
use txt.Http.{Response}
use txt.Platform.{Platform}
use txt.Documents.{positive}
use txt.Database.{Database, Bookmark}
use txt.Database.Bookmarks.{bookmark_cap, newest, referenced_document, delete_bookmark}
use txt.Database.Ownership.{IsOwned}
use txt.Database.BookmarkKeys.{IsCapped, delete_bookmark-cases}
use txt.Bookmarks.{NewBookmark, delete_checked, handle_delete_bookmark}

-- The row that a POST adds.
abbrev pub new_row : NewBookmark → ℕ → ℕ → Database → Bookmark
new_row b id now db = record {
  id = db.next_bookmark;
  document_id = id;
  created_at = now;
  key_id = db.next_key;
  bookmark_blob = b.bookmark_blob;
}

-- What a POST does: a document that is not there is answered 400 and nothing changes; otherwise the
-- new row stands before the newest rows of its document.
abbrev pub Posted : NewBookmark → ℕ → World → Response → World → Type 0
Posted b now w response after =
    ((referenced_document b.document_id w.db ≡ none) × (response.status ≡ 400) × (after ≡ w))
    ⊎ ((id : ℕ) × (referenced_document b.document_id w.db ≡ some id)
        × (response.status ≡ 200)
        × IsOwned after.db
        × IsCapped after.db
        × (after.db.bookmarks ≡ newest id bookmark_cap (new_row b id now w.db ∷ w.db.bookmarks))
        × (after.db.documents ≡ w.db.documents))

deleted :
    (id : ℕ) (w : World) (after : Database) (r : Reply (Unit {0})) (response : Response)
    → r ≡ ok tt after
    → (P : Response → World → Type 0) → P response (record w { db = after })
    → Returns P (run (answer r >> returns response) (commit w r))
deleted id w after r response e P h = rw e h

-- Every DELETE of a bookmark, of one that is there or not, ends in 204 with the row gone and all
-- others kept, the documents as they were, and each key of the store belonging to one row.
pub handle_delete_bookmark-Deleted :
    (platform : Platform) (id_param : Text) (id : ℕ) (w : World)
    → positive (platform.number_of id_param) ≡ some id
    → IsOwned w.db
    → IsCapped w.db
    → Returns
        (λ response after.
          (response.status ≡ 204)
          × (after.db.bookmarks ≡ keep (λ b. not (b.id == id)) w.db.bookmarks)
          × (after.db.documents ≡ w.db.documents)
          × IsOwned after.db
          × IsCapped after.db)
        (run (handle_delete_bookmark platform id_param) w)
unfolding handle_delete_bookmark delete_checked
handle_delete_bookmark-Deleted platform id_param id w e v c = rw e (
    let (after, done, owned, capped, rows, documents) = delete_bookmark-cases id w.db v c in
    deleted id w after (delete_bookmark id w.db) _ done _ (refl, rows, documents, owned, capped))
