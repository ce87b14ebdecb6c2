-- ===== src/Database/DocumentKeys.antt =====
-- The statements on documents keep the ownership of keys.
use txt.Prelude.{
  ℕ, ◌+◌, ◌≤◌, ◌≡◌, refl, ap, ◌⊎◌, inl, inr, List, Bytes, ◌==◌, true, if◌then◌else◌, keep, length,
  arith, Bool-cases,
}
use txt.Effects.{ok, Succeeds}
use txt.Database.{Database, access_key}
use txt.Database.Keys.{referenced, has_purpose}
use txt.Database.Documents.{
  update_documents, at_version, with_key_at, without_key_at, write_key, write_null, update_access,
  set_access_key, clear_access, access_keys,
}
use txt.Database.Ownership.{
  count, key_ids, IsOwned, delete_keys_free, without_keys-IsOwned, without_keys_fields,
}
use txt.Database.DocumentLaws.{
  document_keys-write_blob, count-write_key, count-write_null, count-referenced, HasDistinctIds,
  length-without_key-le,
}

pub update_access-IsOwned :
    (id version : ℕ) (blob : Bytes) (db : Database)
    → IsOwned db
    → Succeeds (λ changes after. IsOwned after) (update_access id version blob db)
unfolding update_access referenced
update_access-IsOwned id version blob db v = record {
  owned = λ k. rw (document_keys-write_blob (with_key_at id version) blob db.documents) (v.owned k);
  once = v.once;
  fresh = v.fresh;
}

-- A first write finds no row, or the one row that takes the key.
pub set_access_key-cases :
    (key id version : ℕ) (blob : Bytes) (db : Database)
    → HasDistinctIds db
    → has_purpose access_key key db ≡ true
    → (set_access_key key id version blob db ≡ ok 0 db)
      ⊎ ((after : Database) × (set_access_key key id version blob db ≡ ok 1 after)
          × (after.key_store ≡ db.key_store)
          × (after.next_key ≡ db.next_key)
          × ((k : ℕ)
              → count k (referenced after) ≡ count k (referenced db) + (if key == k then 1 else 0)))
unfolding set_access_key
set_access_key-cases key id version blob db u purpose =
    elim (Bool-cases (length (keep (without_key_at id version) db.documents) == 0)) [
      | inl missed ↦ inl (rw missed)
      | inr found ↦
          let one : length (keep (without_key_at id version) db.documents) ≡ 1 =
            ground (arith, length-without_key-le id version db.documents, u.distinct id) in
          inr (taken, rw (found, purpose, one), refl, refl, λ k. counts k one)
    ]
  where
    taken : Database
    taken = record db {
      documents = update_documents (without_key_at id version) (write_key key blob) db.documents;
    }

    counts :
        (k : ℕ)
        → length (keep (without_key_at id version) db.documents) ≡ 1
        → count k (referenced taken) ≡ count k (referenced db) + (if key == k then 1 else 0)
    counts k one = ground (
      arith,
      one,
      count-referenced k db,
      count-referenced k taken,
      count-write_key k key id version blob db.documents,
    )

pub clear_access-IsOwned :
    (id version : ℕ) (db : Database)
    → IsOwned db
    → Succeeds (λ changes after. IsOwned after) (clear_access id version db)
unfolding clear_access
clear_access-IsOwned id version db v =
    rw (delete_keys_free old cleared free) (without_keys-IsOwned old cleared total v.once v.fresh)
  where
    old : List ℕ
    old = access_keys (keep (at_version id version) db.documents)

    cleared : Database
    cleared = record db {
      documents = update_documents (at_version id version) write_null db.documents;
    }

    counts : (k : ℕ) → count k (referenced cleared) + count k old ≡ count k (referenced db)
    counts k = omega (
      arith,
      count-referenced k db,
      count-referenced k cleared,
      count-write_null k (at_version id version) db.documents,
    )

    total : (k : ℕ) → count k (key_ids db.key_store) ≡ count k (referenced cleared) + count k old
    total k = omega (arith, counts k, v.owned k)

    free : (k : ℕ) → 1 ≤ count k old → count k (referenced cleared) ≡ 0
    free k h = omega (arith, counts k, v.owned k, v.once k)

-- The documents after a clearing, whose keys can all be deleted.
pub clear_access-documents :
    (id version : ℕ) (db : Database)
    → IsOwned db
    → Succeeds
        (λ changes after.
          (changes ≡ length (keep (at_version id version) db.documents))
          × (after.documents ≡ update_documents (at_version id version) write_null db.documents))
        (clear_access id version db)
unfolding clear_access
clear_access-documents id version db v =
    rw (delete_keys_free old cleared free)
      (refl, ap (λ (d : Database). d.documents) (without_keys_fields old cleared))
  where
    old : List ℕ
    old = access_keys (keep (at_version id version) db.documents)

    cleared : Database
    cleared = record db {
      documents = update_documents (at_version id version) write_null db.documents;
    }

    free : (k : ℕ) → 1 ≤ count k old → count k (referenced cleared) ≡ 0
    free k h = omega (
      arith,
      count-referenced k db,
      count-referenced k cleared,
      count-write_null k (at_version id version) db.documents,
      v.owned k,
      v.once k,
    )
