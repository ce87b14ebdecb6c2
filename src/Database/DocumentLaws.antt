-- ===== src/Database/DocumentLaws.antt =====
-- What the statements on documents do to the rows and to the keys that they own.
use txt.Prelude.{
  ℕ, ◌+◌, ◌≤◌, ◌≡◌, refl, List, [], ◌∷◌, ◌++◌, map, Bytes, ◌==◌, Bool, if◌then◌else◌, keep, length,
  arith,
}
use txt.Database.{Database, Document}
use txt.Database.Keys.{referenced, list_of, document_keys, catalog_keys, bookmark_keys, share_keys}
use txt.Database.Documents.{
  update_documents, without_key_at, write_blob, write_key, write_null, access_keys,
}
use txt.Database.Ownership.{count, count-append}

pub document_keys-write_blob :
    (p : Document → Bool) (blob : Bytes) (ds : List Document)
    → document_keys (update_documents p (write_blob blob) ds) ≡ document_keys ds
document_keys-write_blob p blob [] = refl
document_keys-write_blob p blob (d ∷ ds) = ground (arith, document_keys-write_blob p blob ds)

-- A new key is counted once for each row that is given it.
pub count-write_key :
    (k key id version : ℕ) (blob : Bytes) (ds : List Document)
    → count k (document_keys (update_documents (without_key_at id version) (write_key key blob) ds))
      ≡ count k (document_keys ds)
        + (if key == k then length (keep (without_key_at id version) ds) else 0)
count-write_key k key id version blob [] = ground arith
count-write_key k key id version blob (d ∷ ds) = ground (
  arith,
  count-write_key k key id version blob ds,
  count-append k (list_of d.access_key_id) (document_keys ds),
)

-- The keys of the rows that are cleared are no longer referred to.
pub count-write_null :
    (k : ℕ) (p : Document → Bool) (ds : List Document)
    → count k (document_keys (update_documents p write_null ds)) + count k (access_keys (keep p ds))
      ≡ count k (document_keys ds)
count-write_null k p [] = omega arith
count-write_null k p (d ∷ ds) = ground (
  arith,
  count-write_null k p ds,
  count-append k (list_of d.access_key_id) (document_keys ds),
  count-append k (list_of d.access_key_id) (document_keys (update_documents p write_null ds)),
  count-append k (list_of d.access_key_id) (access_keys (keep p ds)),
)

unfoldable pub document_ids : List Document → List ℕ
document_ids = map (λ d. d.id)

-- documents.id is a primary key.
pub record HasDistinctIds (db : Database) : Type 0 where
  pub distinct : (id : ℕ) → count id (document_ids db.documents) ≤ 1

pub length-without_key-le :
    (id version : ℕ) (ds : List Document)
    → length (keep (without_key_at id version) ds) ≤ count id (document_ids ds)
unfolding document_ids
length-without_key-le id version [] = omega arith
length-without_key-le id version (d ∷ ds) = ground (arith, length-without_key-le id version ds)

pub count-referenced :
    (k : ℕ) (db : Database)
    → count k (referenced db)
      ≡ count k (catalog_keys db.catalog)
        + count k (document_keys db.documents)
        + count k (bookmark_keys db.bookmarks)
        + count k (share_keys db.shares)
unfolding referenced
count-referenced k db = omega (
  arith,
  count-append k (catalog_keys db.catalog)
      (document_keys db.documents ++ (bookmark_keys db.bookmarks ++ share_keys db.shares)),
  count-append k (document_keys db.documents) (bookmark_keys db.bookmarks ++ share_keys db.shares),
  count-append k (bookmark_keys db.bookmarks) (share_keys db.shares),
)
