-- ===== src/Database/Ownership.antt =====
-- Which row owns which key: the invariant that the schema's triggers and the handlers' own clean-up
-- keep, and what each statement on keys does to it.
use txt.Prelude.{
  ℕ, suc, ◌+◌, ◌≤◌, ◌≡◌, refl, ◌∙◌, List, [], ◌∷◌, ◌++◌, map, Bytes, ◌==◌, true, false, not,
  if◌then◌else◌, keep, any, arith,
}
use txt.Effects.{ok}
use txt.Database.{
  Database, Key, Purpose, catalog_key, content_key, access_key, bookmark_key, share_key,
}
use txt.Database.Keys.{
  has_purpose, same_purpose, find_key, referenced, insert_key, delete_key, delete_keys,
}

-- How often a number stands in a list.
abbrev pub count : ℕ → List ℕ → ℕ
count k [] = 0
count k (x ∷ xs) = (if x == k then 1 else 0) + count k xs

pub count-append : (k : ℕ) (xs ys : List ℕ) → count k (xs ++ ys) ≡ count k xs + count k ys
count-append k [] ys = omega arith
count-append k (x ∷ xs) ys = omega (arith, count-append k xs ys)

pub any-count : (k : ℕ) (xs : List ℕ) → count k xs ≡ 0 → any (λ x. x == k) xs ≡ false
any-count k [] h = refl
any-count k (x ∷ xs) h = ground (arith, any-count k xs)

unfoldable pub key_ids : List Key → List ℕ
key_ids = map (λ k. k.id)

-- Each key belongs to one row, no key is left over, and the ids to come are new.
pub record IsOwned (db : Database) : Type 0 where
  pub owned : (k : ℕ) → count k (key_ids db.key_store) ≡ count k (referenced db)
  pub once : (k : ℕ) → count k (key_ids db.key_store) ≤ 1
  pub fresh : (k : ℕ) → db.next_key ≤ k → count k (key_ids db.key_store) ≡ 0

count-keep :
    (k id : ℕ) (keys : List Key)
    → count k (key_ids (keep (λ x. not (x.id == id)) keys))
      ≡ (if k == id then 0 else count k (key_ids keys))
unfolding key_ids
count-keep k id [] = ground arith
count-keep k id (x ∷ keys) = ground (arith, count-keep k id keys)

unfoldable pub without_key : ℕ → Database → Database
without_key id db = record db { key_store = keep (λ k. not (k.id == id)) db.key_store }

-- A key that no row refers to can be deleted.
pub delete_key_free :
    (id : ℕ) (db : Database)
    → count id (referenced db) ≡ 0
    → delete_key id db ≡ ok tt (without_key id db)
unfolding delete_key without_key
delete_key_free id db h = rw (any-count id (referenced db) h)

pub without_keys : List ℕ → Database → Database
without_keys [] db = db
without_keys (id ∷ ids) db = without_keys ids (without_key id db)

pub referenced-without_key :
    (id : ℕ) (db : Database) → referenced (without_key id db) ≡ referenced db
unfolding without_key referenced
referenced-without_key id db = refl

pub delete_keys_free :
    (ids : List ℕ) (db : Database)
    → ((k : ℕ) → 1 ≤ count k ids → count k (referenced db) ≡ 0)
    → delete_keys ids db ≡ ok tt (without_keys ids db)
unfolding delete_keys without_keys
delete_keys_free [] db h = refl
delete_keys_free (id ∷ ids) db h = rw (delete_key_free id db (h id (ground arith))) (
    delete_keys_free ids (without_key id db)
      (λ k p. rw (referenced-without_key id db) (h k (omega arith))))

pub count-without_keys :
    (k : ℕ) (ids : List ℕ) (db : Database)
    → count k (key_ids (without_keys ids db).key_store)
      ≡ (if count k ids == 0 then count k (key_ids db.key_store) else 0)
unfolding without_keys
count-without_keys k [] db = refl
count-without_keys k (id ∷ ids) db =
    ground (arith, count-without_keys k ids (without_key id db), count_once)
  where
    count_once :
        count k (key_ids (without_key id db).key_store)
        ≡ (if k == id then 0 else count k (key_ids db.key_store))
    count_once = unfold without_key in count-keep k id db.key_store

pub without_keys_fields :
    (ids : List ℕ) (db : Database)
    → without_keys ids db ≡ record db { key_store = (without_keys ids db).key_store }
unfolding without_keys without_key
without_keys_fields [] db = refl
without_keys_fields (id ∷ ids) db = without_keys_fields ids (without_key id db)

referenced-without_keys :
    (ids : List ℕ) (db : Database) → referenced (without_keys ids db) ≡ referenced db
unfolding without_keys
referenced-without_keys [] db = refl
referenced-without_keys (id ∷ ids) db =
    referenced-without_keys ids (without_key id db) ∙ referenced-without_key id db

next_key-without_keys :
    (ids : List ℕ) (db : Database) → (without_keys ids db).next_key ≡ db.next_key
unfolding without_keys without_key
next_key-without_keys [] db = refl
next_key-without_keys (id ∷ ids) db = next_key-without_keys ids (without_key id db)

-- Deleting the keys that rows have let go of restores the ownership.
pub without_keys-IsOwned :
    (ids : List ℕ) (db : Database)
    → ((k : ℕ) → count k (key_ids db.key_store) ≡ count k (referenced db) + count k ids)
    → ((k : ℕ) → count k (key_ids db.key_store) ≤ 1)
    → ((k : ℕ) → db.next_key ≤ k → count k (key_ids db.key_store) ≡ 0)
    → IsOwned (without_keys ids db)
without_keys-IsOwned ids db total once fresh = record {
  owned = λ k.
      rw (referenced-without_keys ids db)
        (ground (arith, count-without_keys k ids db, total k, once k));
  once = λ k. ground (arith, count-without_keys k ids db, once k);
  fresh = λ k h. ground (
    arith,
    count-without_keys k ids db,
    fresh k (let e = next_key-without_keys ids db in omega arith),
  );
}

same_purpose_refl : (p : Purpose) → same_purpose p p ≡ true
same_purpose_refl catalog_key = refl
same_purpose_refl content_key = refl
same_purpose_refl access_key = refl
same_purpose_refl bookmark_key = refl
same_purpose_refl share_key = refl

unfoldable pub with_new_key : Purpose → Bytes → ℕ → Database → Database
with_new_key purpose wrapped now db = record db {
  key_store =
      record { id = db.next_key; purpose = purpose; wrapped_key = wrapped; created_at = now }
      ∷ db.key_store;
  next_key = suc db.next_key;
}

pub insert_key_lem :
    (purpose : Purpose) (wrapped : Bytes) (now : ℕ) (db : Database)
    → insert_key purpose wrapped now db ≡ ok db.next_key (with_new_key purpose wrapped now db)
unfolding insert_key with_new_key
insert_key_lem purpose wrapped now db = refl

-- The new key is there, with its purpose, once, and no row refers to it yet.
pub has_purpose-with_new_key :
    (purpose : Purpose) (wrapped : Bytes) (now : ℕ) (db : Database)
    → has_purpose purpose db.next_key (with_new_key purpose wrapped now db) ≡ true
unfolding has_purpose find_key with_new_key
has_purpose-with_new_key purpose wrapped now db = ground (arith, same_purpose_refl purpose)

pub count-with_new_key :
    (k : ℕ) (purpose : Purpose) (wrapped : Bytes) (now : ℕ) (db : Database)
    → count k (key_ids (with_new_key purpose wrapped now db).key_store)
      ≡ (if db.next_key == k then 1 else 0) + count k (key_ids db.key_store)
unfolding with_new_key key_ids
count-with_new_key k purpose wrapped now db = refl

pub referenced-with_new_key :
    (purpose : Purpose) (wrapped : Bytes) (now : ℕ) (db : Database)
    → referenced (with_new_key purpose wrapped now db) ≡ referenced db
unfolding with_new_key referenced
referenced-with_new_key purpose wrapped now db = refl

pub next_key-with_new_key :
    (purpose : Purpose) (wrapped : Bytes) (now : ℕ) (db : Database)
    → (with_new_key purpose wrapped now db).next_key ≡ suc db.next_key
unfolding with_new_key
next_key-with_new_key purpose wrapped now db = refl

-- A new key that nothing took is deleted again.
pub without_new_key-IsOwned :
    (purpose : Purpose) (wrapped : Bytes) (now : ℕ) (db : Database)
    → IsOwned db
    → IsOwned (without_key db.next_key (with_new_key purpose wrapped now db))
unfolding without_keys
without_new_key-IsOwned purpose wrapped now db v =
    without_keys-IsOwned (db.next_key ∷ []) (with_new_key purpose wrapped now db)
      (λ k.
        rw (referenced-with_new_key purpose wrapped now db)
          (omega (arith, count-with_new_key k purpose wrapped now db, v.owned k)))
      (λ k. new_once k) (λ k h. new_fresh k h)
  where
    new_once : (k : ℕ) → count k (key_ids (with_new_key purpose wrapped now db).key_store) ≤ 1
    new_once k = ground (arith, count-with_new_key k purpose wrapped now db, v.once k, v.fresh k)

    new_fresh :
        (k : ℕ)
        → (with_new_key purpose wrapped now db).next_key ≤ k
        → count k (key_ids (with_new_key purpose wrapped now db).key_store) ≡ 0
    new_fresh k h = ground (
      arith,
      count-with_new_key k purpose wrapped now db,
      next_key-with_new_key purpose wrapped now db,
      v.fresh k,
    )

-- A new key that one row took: what is left to show is that the row counts it.
pub with_new_key-IsOwned :
    (purpose : Purpose) (wrapped : Bytes) (now : ℕ) (db after : Database)
    → IsOwned db
    → after.key_store ≡ (with_new_key purpose wrapped now db).key_store
    → after.next_key ≡ (with_new_key purpose wrapped now db).next_key
    → ((k : ℕ)
        → count k (referenced after)
          ≡ count k (referenced db) + (if db.next_key == k then 1 else 0))
    → IsOwned after
unfolding key_ids referenced
with_new_key-IsOwned purpose wrapped now db after v same_keys same_next counts = record {
  owned = λ k.
      rw same_keys
        (omega (arith, count-with_new_key k purpose wrapped now db, v.owned k, counts k));
  once = λ k.
      rw same_keys
        (ground (arith, count-with_new_key k purpose wrapped now db, v.once k, v.fresh k));
  fresh = λ k h. rw same_keys (
      ground (
        arith,
        count-with_new_key k purpose wrapped now db,
        next_key-with_new_key purpose wrapped now db,
        v.fresh k,
      ));
}

-- A new key that no row took can be deleted again.
pub delete_unused_key :
    (wrapped : Bytes) (now : ℕ) (db : Database)
    → IsOwned db
    → delete_key db.next_key (with_new_key access_key wrapped now db)
      ≡ ok tt (without_key db.next_key (with_new_key access_key wrapped now db))
delete_unused_key wrapped now db v =
    delete_key_free db.next_key (with_new_key access_key wrapped now db) (
      rw (referenced-with_new_key access_key wrapped now db)
        (omega (arith, v.owned db.next_key, v.fresh db.next_key (omega arith))))
