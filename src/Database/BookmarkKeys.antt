-- ===== src/Database/BookmarkKeys.antt =====
-- The statements on bookmarks keep the ownership of keys, and at most 20 rows for each document.
use txt.Prelude.{
  ℕ, zero, suc, ◌+◌, ◌≤◌, ◌≡◌, refl, subst, ◌∙◌, ap, ◌⊎◌, inl, inr, none, some, List, [], ◌∷◌,
  Bytes, ◌==◌, false, not, keep, length, arith, Bool-cases, Option-cases,
}
use txt.Json.{ℤ, pos, negsuc}
use txt.Errors.{foreign_key_failed}
use txt.Effects.{ok, failed}
use txt.Database.{Database, Bookmark, bookmark_key}
use txt.Database.Keys.{referenced, bookmark_keys, delete_keys}
use txt.Database.Bookmarks.{
  bookmark_cap, newest, evicted, cap_bookmarks, add_bookmark, referenced_document, insert_bookmark,
  delete_bookmark,
}
use txt.Database.Ownership.{
  count, key_ids, IsOwned, without_keys, delete_keys_free, without_keys-IsOwned,
  without_keys_fields, with_new_key, has_purpose-with_new_key, with_new_key-IsOwned,
}
use txt.Database.Documents.{find_document}
use txt.Database.DocumentLaws.{count-referenced}

-- No document has more than its 20 bookmarks.
pub record IsCapped (db : Database) : Type 0 where
  pub capped : (doc : ℕ) → length (keep (λ b. b.document_id == doc) db.bookmarks) ≤ bookmark_cap

count-newest :
    (k doc n : ℕ) (bs : List Bookmark)
    → count k (bookmark_keys (newest doc n bs)) + count k (bookmark_keys (evicted doc n bs))
      ≡ count k (bookmark_keys bs)
unfolding newest evicted
count-newest k doc n [] = refl
count-newest k doc zero (b ∷ bs) = ground (arith, count-newest k doc zero bs)
count-newest k doc (suc n) (b ∷ bs) =
    ground (arith, count-newest k doc n bs, count-newest k doc (suc n) bs)

length-newest :
    (doc n : ℕ) (bs : List Bookmark)
    → length (keep (λ b. b.document_id == doc) (newest doc n bs)) ≤ n
unfolding newest
length-newest doc n [] = omega arith
length-newest doc zero (b ∷ bs) = ground (arith, length-newest doc zero bs)
length-newest doc (suc n) (b ∷ bs) =
    ground (arith, length-newest doc n bs, length-newest doc (suc n) bs)

other-newest :
    (other doc n : ℕ) (bs : List Bookmark)
    → (doc == other) ≡ false
    → keep (λ b. b.document_id == other) (newest doc n bs) ≡ keep (λ b. b.document_id == other) bs
unfolding newest
other-newest other doc n [] h = refl
other-newest other doc zero (b ∷ bs) h = ground (arith, other-newest other doc zero bs h)
other-newest other doc (suc n) (b ∷ bs) h =
    ground (arith, other-newest other doc n bs h, other-newest other doc (suc n) bs h)

count-removed :
    (k id : ℕ) (bs : List Bookmark)
    → count k (bookmark_keys (keep (λ b. not (b.id == id)) bs))
        + count k (bookmark_keys (keep (λ b. b.id == id) bs))
      ≡ count k (bookmark_keys bs)
count-removed k id [] = refl
count-removed k id (b ∷ bs) = ground (arith, count-removed k id bs)

-- The deletion of the keys of rows that go: one statement, for the rows that stay and those that go.
pub remove_rows :
    (stay go : List Bookmark) (db : Database)
    → ((k : ℕ)
        → count k (bookmark_keys stay) + count k (bookmark_keys go)
          ≡ count k (bookmark_keys db.bookmarks))
    → IsOwned db
    → (delete_keys (bookmark_keys go) (record db { bookmarks = stay })
        ≡ ok tt (without_keys (bookmark_keys go) (record db { bookmarks = stay })))
      × IsOwned (without_keys (bookmark_keys go) (record db { bookmarks = stay }))
remove_rows stay go db split v = (
  delete_keys_free (bookmark_keys go) left free,
  without_keys-IsOwned (bookmark_keys go) left total v.once v.fresh,
)
  where
    left : Database
    left = record db { bookmarks = stay }

    total :
        (k : ℕ)
        → count k (key_ids db.key_store) ≡ count k (referenced left) + count k (bookmark_keys go)
    total k = omega (arith, v.owned k, count-referenced k db, count-referenced k left, split k)

    free : (k : ℕ) → 1 ≤ count k (bookmark_keys go) → count k (referenced left) ≡ 0
    free k h = omega (arith, total k, v.once k)

pub delete_bookmark-cases :
    (id : ℕ) (db : Database)
    → IsOwned db
    → IsCapped db
    → (after : Database) × (delete_bookmark id db ≡ ok tt after)
      × IsOwned after
      × IsCapped after
      × (after.bookmarks ≡ keep (λ b. not (b.id == id)) db.bookmarks)
      × (after.documents ≡ db.documents)
unfolding delete_bookmark
delete_bookmark-cases id db v c = (
  without_keys (bookmark_keys go) (record db { bookmarks = stay }),
  rows.0,
  rows.1,
  record {
    capped = λ doc. rw bookmarks_after (omega (arith, kept_le doc db.bookmarks, c.capped doc));
  },
  bookmarks_after,
  ap (λ (d : Database). d.documents)
      (without_keys_fields (bookmark_keys go) (record db { bookmarks = stay })),
)
  where
    stay : List Bookmark
    stay = keep (λ b. not (b.id == id)) db.bookmarks

    go : List Bookmark
    go = keep (λ b. b.id == id) db.bookmarks

    rows :
        (delete_keys (bookmark_keys go) (record db { bookmarks = stay })
          ≡ ok tt (without_keys (bookmark_keys go) (record db { bookmarks = stay })))
        × IsOwned (without_keys (bookmark_keys go) (record db { bookmarks = stay }))
    rows = remove_rows stay go db (λ k. count-removed k id db.bookmarks) v

    bookmarks_after :
        (without_keys (bookmark_keys go) (record db { bookmarks = stay })).bookmarks ≡ stay
    bookmarks_after =
        ap (λ (d : Database). d.bookmarks)
          (without_keys_fields (bookmark_keys go) (record db { bookmarks = stay }))

    kept_le :
        (doc : ℕ) (bs : List Bookmark)
        → length (keep (λ b. b.document_id == doc) (keep (λ b. not (b.id == id)) bs))
          ≤ length (keep (λ b. b.document_id == doc) bs)
    kept_le doc [] = omega arith
    kept_le doc (b ∷ bs) = ground (arith, kept_le doc bs)

-- The row of a new bookmark takes the new key.
add_bookmark-IsOwned :
    (doc now key_now : ℕ) (wrapped blob : Bytes) (db : Database)
    → IsOwned db
    → IsOwned (add_bookmark doc now db.next_key blob (with_new_key bookmark_key wrapped key_now db))
unfolding add_bookmark with_new_key
add_bookmark-IsOwned doc now key_now wrapped blob db v =
    with_new_key-IsOwned bookmark_key wrapped key_now db
      (add_bookmark doc now db.next_key blob (with_new_key bookmark_key wrapped key_now db)) v refl
      refl
      (λ k. omega (
        arith,
        count-referenced k db,
        count-referenced k
            (add_bookmark doc now db.next_key blob (with_new_key bookmark_key wrapped key_now db)),
      ))

capped_after :
    (doc : ℕ) (bs old : List Bookmark) (b : Bookmark)
    → bs ≡ b ∷ old
    → b.document_id ≡ doc
    → ((other : ℕ) → length (keep (λ b. b.document_id == other) old) ≤ bookmark_cap)
    → (other : ℕ)
    → length (keep (λ b. b.document_id == other) (newest doc bookmark_cap bs)) ≤ bookmark_cap
capped_after doc bs old b e same h other = elim (Bool-cases (doc == other)) [
  | inl at ↦
      subst
        (λ o. length (keep (λ b. b.document_id == o) (newest doc bookmark_cap bs)) ≤ bookmark_cap)
        (ground arith) (length-newest doc bookmark_cap bs)
  | inr elsewhere ↦
      rw (other-newest other doc bookmark_cap bs elsewhere) (rw e (ground (arith, h other)))
]

referenced_document-with_new_key :
    (doc : ℤ) (wrapped : Bytes) (key_now : ℕ) (db : Database)
    → referenced_document doc (with_new_key bookmark_key wrapped key_now db)
      ≡ referenced_document doc db
unfolding referenced_document find_document with_new_key
referenced_document-with_new_key (pos n) wrapped key_now db = refl
referenced_document-with_new_key (negsuc n) wrapped key_now db = refl

insert_refused :
    (doc : ℤ) (now key_now : ℕ) (wrapped blob : Bytes) (db : Database)
    → referenced_document doc db ≡ none
    → insert_bookmark doc now db.next_key blob (with_new_key bookmark_key wrapped key_now db)
      ≡ failed foreign_key_failed
unfolding insert_bookmark
insert_refused doc now key_now wrapped blob db e =
    rw
      (
        has_purpose-with_new_key bookmark_key wrapped key_now db,
        referenced_document-with_new_key doc wrapped key_now db ∙ e,
      )
      refl

insert_done :
    (doc : ℤ) (id now key_now : ℕ) (wrapped blob : Bytes) (db after : Database)
    → referenced_document doc db ≡ some id
    → cap_bookmarks id
        (add_bookmark id now db.next_key blob (with_new_key bookmark_key wrapped key_now db))
      ≡ ok tt after
    → insert_bookmark doc now db.next_key blob (with_new_key bookmark_key wrapped key_now db)
      ≡ ok db.next_bookmark after
unfolding with_new_key insert_bookmark
insert_done doc id now key_now wrapped blob db after e capped =
    rw
      (
        has_purpose-with_new_key bookmark_key wrapped key_now db,
        referenced_document-with_new_key doc wrapped key_now db ∙ e,
        capped,
      )
      refl

-- The insert of a bookmark with a new key, as in the batch of a POST: it fails where the document is
-- not there, and otherwise adds one row, of the given document, and lets the oldest go.
pub insert_bookmark-cases :
    (doc : ℤ) (now key_now : ℕ) (wrapped blob : Bytes) (db : Database)
    → IsOwned db
    → IsCapped db
    → ((referenced_document doc db ≡ none)
        × (insert_bookmark doc now db.next_key blob (with_new_key bookmark_key wrapped key_now db)
            ≡ failed foreign_key_failed))
      ⊎ ((id : ℕ) × (after : Database) × (referenced_document doc db ≡ some id)
          × (insert_bookmark doc now db.next_key blob (with_new_key bookmark_key wrapped key_now db)
              ≡ ok db.next_bookmark after)
          × IsOwned after
          × IsCapped after
          × (after.bookmarks
              ≡ newest id bookmark_cap
                  (add_bookmark id now db.next_key blob
                    (with_new_key bookmark_key wrapped key_now db)).bookmarks)
          × (after.documents ≡ db.documents))
unfolding cap_bookmarks add_bookmark with_new_key
insert_bookmark-cases doc now key_now wrapped blob db v c =
    elim (Option-cases (referenced_document doc db)) [
      | inl e ↦ inl (e, insert_refused doc now key_now wrapped blob db e)
      | inr (id, e) ↦ inr (
        id,
        capped id,
        e,
        insert_done doc id now key_now wrapped blob db (capped id) e (rows id).0,
        (rows id).1,
        record { capped = λ other. rw (fields id) (few id other) },
        ap (λ (d : Database). d.bookmarks) (fields id),
        ap (λ (d : Database). d.documents) (fields id),
      )
    ]
  where
    added : ℕ → Database
    added id = add_bookmark id now db.next_key blob (with_new_key bookmark_key wrapped key_now db)

    stay : ℕ → List Bookmark
    stay id = newest id bookmark_cap (added id).bookmarks

    gone : ℕ → List ℕ
    gone id = bookmark_keys (evicted id bookmark_cap (added id).bookmarks)

    capped : ℕ → Database
    capped id = without_keys (gone id) (record (added id) { bookmarks = stay id })

    fields :
        (id : ℕ)
        → capped id ≡ record (added id) { bookmarks = stay id; key_store = (capped id).key_store }
    fields id = without_keys_fields (gone id) (record (added id) { bookmarks = stay id })

    rows :
        (id : ℕ)
        → (delete_keys (gone id) (record (added id) { bookmarks = stay id }) ≡ ok tt (capped id))
          × IsOwned (capped id)
    rows id =
        remove_rows (stay id) (evicted id bookmark_cap (added id).bookmarks) (added id)
          (λ k. count-newest k id bookmark_cap (added id).bookmarks)
          (add_bookmark-IsOwned id now key_now wrapped blob db v)

    few : (id other : ℕ) → length (keep (λ b. b.document_id == other) (stay id)) ≤ bookmark_cap
    few id other = capped_after id (added id).bookmarks db.bookmarks _ refl refl c.capped other
