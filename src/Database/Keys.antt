-- ===== src/Database/Keys.antt =====
-- The statements on key_store, with the foreign keys that refer to it.
use txt.Prelude.{
  ℕ, suc, Option, none, some, List, [], ◌∷◌, ◌++◌, map, Bytes, ◌==◌, Bool, true, false, not,
  if◌then◌else◌, keep, find, any,
}
use txt.Errors.{foreign_key_failed}
use txt.Effects.{ok, failed, Statement, then_statement}
use txt.Database.{
  Key, Purpose, catalog_key, content_key, access_key, bookmark_key, share_key, Catalog, Document,
  Bookmark, Share, Database,
}

abbrev pub list_of : Option ℕ → List ℕ
list_of none = []
list_of (some k) = k ∷ []

abbrev pub document_keys : List Document → List ℕ
document_keys [] = []
document_keys (d ∷ ds) = d.content_key_id ∷ (list_of d.access_key_id ++ document_keys ds)

abbrev pub catalog_keys : Option Catalog → List ℕ
catalog_keys none = []
catalog_keys (some c) = c.key_id ∷ []

abbrev pub bookmark_keys : List Bookmark → List ℕ
bookmark_keys = map (λ b. b.key_id)

abbrev pub share_keys : List Share → List ℕ
share_keys = map (λ s. s.key_id)

-- The keys that a row refers to.
unfoldable pub referenced : Database → List ℕ
referenced db =
    catalog_keys db.catalog
    ++ (document_keys db.documents ++ (bookmark_keys db.bookmarks ++ share_keys db.shares))

unfoldable pub find_key : ℕ → Database → Option Key
find_key id db = find (λ k. k.id == id) db.key_store

-- `k.wrapped_key` of a row that is joined on its key.
unfoldable pub wrapped_key_of : ℕ → Database → Option Bytes
unfolding find_key
wrapped_key_of id db = elim (find_key id db) [ none ↦ none | some k ↦ some k.wrapped_key ]

-- INSERT INTO key_store; the result is last_insert_rowid().
unfoldable pub insert_key : Purpose → Bytes → ℕ → Statement ℕ
insert_key purpose wrapped now db = ok db.next_key (record db {
  key_store =
      record { id = db.next_key; purpose = purpose; wrapped_key = wrapped; created_at = now }
      ∷ db.key_store;
  next_key = suc db.next_key;
})

-- DELETE FROM key_store WHERE id = ?; D1 refuses to delete a key that a row refers to.
unfoldable pub delete_key : ℕ → Statement (Unit {0})
unfolding referenced
delete_key id db =
    if any (λ k. k == id) (referenced db)
    then failed foreign_key_failed
    else ok tt (record db { key_store = keep (λ k. not (k.id == id)) db.key_store })

unfoldable pub delete_keys : List ℕ → Statement (Unit {0})
delete_keys [] db = ok tt db
delete_keys (id ∷ ids) db = then_statement (delete_key id db) (λ _. delete_keys ids)

abbrev pub same_purpose : Purpose → Purpose → Bool
same_purpose catalog_key catalog_key = true
same_purpose content_key content_key = true
same_purpose access_key access_key = true
same_purpose bookmark_key bookmark_key = true
same_purpose share_key share_key = true
same_purpose _ _ = false

-- `(SELECT purpose FROM key_store WHERE id = ?) IS NOT 'p'`, the other way round.
unfoldable pub has_purpose : Purpose → ℕ → Database → Bool
unfolding find_key
has_purpose purpose id db = elim (find_key id db) [
  | none ↦ false
  | some k ↦ same_purpose k.purpose purpose
]
