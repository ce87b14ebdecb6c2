-- ===== src/Database/Bookmarks.antt =====
-- The statements on bookmarks, with its triggers: worker/bookmarksEndpoint.ts runs them. The table
-- is kept newest first, by id.
use txt.Prelude.{
  ℕ, zero, suc, Option, none, some, List, [], ◌∷◌, map, Bytes, ◌==◌, ltb, Bool, not, ◌&&◌, ◌||◌,
  if◌then◌else◌, keep, any, length, take, codes,
}
use txt.Json.{ℤ, pos, negsuc}
use txt.Errors.{purpose_mismatch, foreign_key_failed}
use txt.Effects.{ok, failed, Statement, then_statement}
use txt.Database.{Bookmark, Database, bookmark_key}
use txt.Database.Keys.{bookmark_keys, has_purpose, wrapped_key_of, delete_keys}
use txt.Database.Documents.{find_document, is_null}

abbrev pub bookmark_cap : ℕ
bookmark_cap = 20

-- `id IN (SELECT id ... ORDER BY id DESC LIMIT 20)` of one document, and the rows that are not.
unfoldable pub newest : ℕ → ℕ → List Bookmark → List Bookmark
newest doc n [] = []
newest doc zero (b ∷ bs) =
    let rest = newest doc zero bs in if b.document_id == doc then rest else b ∷ rest
newest doc (suc n) (b ∷ bs) =
    let within = newest doc n bs in
    let other = newest doc (suc n) bs in if b.document_id == doc then b ∷ within else b ∷ other

unfoldable pub evicted : ℕ → ℕ → List Bookmark → List Bookmark
evicted doc n [] = []
evicted doc zero (b ∷ bs) =
    let rest = evicted doc zero bs in if b.document_id == doc then b ∷ rest else rest
evicted doc (suc n) (b ∷ bs) =
    let within = evicted doc n bs in
    let other = evicted doc (suc n) bs in if b.document_id == doc then within else other

-- The trigger trg_bookmarks_cap, with trg_bookmarks_delete_key for each row that it deletes.
unfoldable pub cap_bookmarks : ℕ → Statement (Unit {0})
unfolding newest evicted delete_keys
cap_bookmarks doc db =
    delete_keys (bookmark_keys (evicted doc bookmark_cap db.bookmarks))
      (record db { bookmarks = newest doc bookmark_cap db.bookmarks })

unfoldable pub add_bookmark : ℕ → ℕ → ℕ → Bytes → Database → Database
add_bookmark doc now key blob db = record db {
  bookmarks =
      record {
        id = db.next_bookmark;
        document_id = doc;
        created_at = now;
        key_id = key;
        bookmark_blob = blob;
      }
      ∷ db.bookmarks;
  next_bookmark = suc db.next_bookmark;
}

unfoldable pub referenced_document : ℤ → Database → Option ℕ
referenced_document (negsuc n) db = none
referenced_document (pos n) db = if is_null (find_document n db) then none else some n

-- INSERT INTO bookmarks; the result is the id of the row.
unfoldable pub insert_bookmark : ℤ → ℕ → ℕ → Bytes → Statement ℕ
unfolding has_purpose referenced_document cap_bookmarks add_bookmark
insert_bookmark doc now key blob db =
    if has_purpose bookmark_key key db
    then elim (referenced_document doc db) [
      | none ↦ failed foreign_key_failed
      | some id ↦
          then_statement (cap_bookmarks id (add_bookmark id now key blob db))
            (λ _ after. ok db.next_bookmark after)
    ]
    else failed (purpose_mismatch (codes "bookmarks"))

-- DELETE FROM bookmarks WHERE id = ?, with trg_bookmarks_delete_key.
unfoldable pub delete_bookmark : ℕ → Statement (Unit {0})
unfolding delete_keys
delete_bookmark id db =
    delete_keys (bookmark_keys (keep (λ b. b.id == id) db.bookmarks))
      (record db { bookmarks = keep (λ b. not (b.id == id)) db.bookmarks })

-- ORDER BY created_at, id.
abbrev pub earlier : Bookmark → Bookmark → Bool
earlier a b = ltb a.created_at b.created_at || ((a.created_at == b.created_at) && ltb a.id b.id)

insert_sorted : Bookmark → List Bookmark → List Bookmark
insert_sorted a [] = a ∷ []
insert_sorted a (b ∷ bs) =
    let later = b ∷ insert_sorted a bs in if earlier a b then a ∷ b ∷ bs else later

unfoldable pub by_time : List Bookmark → List Bookmark
unfolding insert_sorted
by_time [] = []
by_time (b ∷ bs) = insert_sorted b (by_time bs)

-- A row joined with the wrapped key that it refers to.
joined_with : Bookmark → Option Bytes → List (Bookmark × Bytes) → List (Bookmark × Bytes)
joined_with b none rows = rows
joined_with b (some wrapped) rows = (b, wrapped) ∷ rows

unfoldable pub joined : Database → List Bookmark → List (Bookmark × Bytes)
unfolding joined_with
joined db [] = []
joined db (b ∷ bs) = joined_with b (wrapped_key_of b.key_id db) (joined db bs)

-- BOOKMARKS_QUERY.
unfoldable pub select_bookmarks : ℕ → Statement (List (Bookmark × Bytes))
unfolding by_time joined
select_bookmarks doc db =
    ok (joined db (by_time (keep (λ b. b.document_id == doc) db.bookmarks))) db

-- The distinct documents in the order of their rows, the first `n` of them.
distinct_documents : List ℕ → List Bookmark → List ℕ
distinct_documents seen [] = []
distinct_documents seen (b ∷ bs) =
    let again = distinct_documents seen bs in
    let fresh = b.document_id ∷ distinct_documents (b.document_id ∷ seen) bs in
    if any (λ d. d == b.document_id) seen then again else fresh

rows_of : ℕ → List (Bookmark × Bytes) → List (Bookmark × Bytes)
rows_of doc = keep (λ r. r.0.document_id == doc)

-- The rows with `rn = 1`, the first of its document in the order of time, latest first.
latest_rows : List ℕ → List (Bookmark × Bytes) → List (Bookmark × Bytes)
latest_rows seen [] = []
latest_rows seen (r ∷ rs) =
    let again = latest_rows seen rs in
    let first = r ∷ latest_rows (r.0.document_id ∷ seen) rs in
    if any (λ d. d == r.0.document_id) seen then again else first

reverse_onto : List Bookmark → List Bookmark → List Bookmark
reverse_onto [] out = out
reverse_onto (b ∷ bs) out = reverse_onto bs (b ∷ out)

abbrev recent_bookmarks_limit : ℕ
recent_bookmarks_limit = 10

-- BOOKMARKS_SUMMARY_QUERY: each latest row with the number of its document's rows.
unfoldable pub select_summary : Statement (List ((Bookmark × Bytes) × ℕ))
unfolding by_time joined distinct_documents rows_of latest_rows reverse_onto
select_summary db =
    let latest_first = reverse_onto (by_time db.bookmarks) [] in
    let recent = take recent_bookmarks_limit (distinct_documents [] latest_first) in
    let rows = joined db (keep (λ b. any (λ d. d == b.document_id) recent) latest_first) in
    ok (map (λ r. (r, length (rows_of r.0.document_id rows))) (latest_rows [] rows)) db
