-- ===== src/Database/ShareKeys.antt =====
-- The statements on shares that a revocation runs: what they leave, and the ownership of keys.
use txt.Prelude.{
  ℕ, ◌+◌, ◌≤◌, ◌≡◌, refl, sym, ap, subst, none, some, List, [], ◌∷◌, Bytes, ◌==◌, Bool, true, false,
  not, ◌&&◌, keep, find, length, arith, same,
}
use txt.Effects.{ok}
use txt.Database.{Database, Share, ShareState, deleting, is_active}
use txt.Database.Keys.{referenced, share_keys}
use txt.Database.Shares.{mark_deleting, delete_share, set_state}
use txt.Database.Ownership.{
  count, key_ids, IsOwned, without_keys, delete_keys_free, without_keys-IsOwned,
  without_keys_fields,
}
use txt.Database.DocumentLaws.{count-referenced}

-- An active row of a hash.
abbrev pub live : Bytes → Share → Bool
live hash s = same s.share_id_hash hash && is_active s.state

live-marked :
    (hash : Bytes) (ss : List Share) → find (live hash) (set_state (live hash) deleting ss) ≡ none
unfolding is_active
live-marked hash [] = refl
live-marked hash (s ∷ ss) = ground (arith, live-marked hash ss)

share_keys-set_state :
    (p : Share → Bool) (state : ShareState) (ss : List Share)
    → share_keys (set_state p state ss) ≡ share_keys ss
share_keys-set_state p state [] = refl
share_keys-set_state p state (s ∷ ss) = ground (arith, share_keys-set_state p state ss)

live-removed :
    (hash : Bytes) (ss : List Share)
    → find (λ s. same s.share_id_hash hash) (keep (λ s. not (same s.share_id_hash hash)) ss) ≡ none
live-removed hash [] = refl
live-removed hash (s ∷ ss) = ground (arith, live-removed hash ss)

pub none-live :
    (hash : Bytes) (ss : List Share)
    → find (λ s. same s.share_id_hash hash) ss ≡ none
    → find (live hash) ss ≡ none
none-live hash [] h = refl
none-live hash (s ∷ ss) h = ground (arith, none-live hash ss)

-- An active row that is found is one that the marking changes.
pub live-rows :
    (hash : Bytes) (row : Share) (ss : List Share)
    → find (λ s. same s.share_id_hash hash) ss ≡ some row
    → is_active row.state ≡ true
    → (length (keep (live hash) ss) == 0) ≡ false
live-rows hash row [] h a = cc
live-rows hash row (s ∷ ss) h a = ground (arith, live-rows hash row ss)

pub mark_deleting-IsOwned :
    (hash : Bytes) (db : Database)
    → IsOwned db
    → IsOwned (record db { shares = set_state (live hash) deleting db.shares })
unfolding referenced
mark_deleting-IsOwned hash db v = record {
  owned = λ k. rw (share_keys-set_state (live hash) deleting db.shares) (v.owned k);
  once = v.once;
  fresh = v.fresh;
}

pub mark_deleting_lem :
    (hash : Bytes) (db : Database)
    → (mark_deleting hash db
        ≡ ok
            (length (keep (live hash) db.shares))
            (record db { shares = set_state (live hash) deleting db.shares }))
      × (find (live hash) (set_state (live hash) deleting db.shares) ≡ none)
unfolding mark_deleting
mark_deleting_lem hash db = (refl, live-marked hash db.shares)

count-removed :
    (k : ℕ) (hash : Bytes) (ss : List Share)
    → count k (share_keys (keep (λ s. not (same s.share_id_hash hash)) ss))
        + count k (share_keys (keep (λ s. same s.share_id_hash hash) ss))
      ≡ count k (share_keys ss)
count-removed k hash [] = refl
count-removed k hash (s ∷ ss) = ground (arith, count-removed k hash ss)

pub delete_share-cases :
    (hash : Bytes) (db : Database)
    → IsOwned db
    → (after : Database) × (delete_share hash db ≡ ok tt after)
      × IsOwned after
      × (find (λ s. same s.share_id_hash hash) after.shares ≡ none)
unfolding delete_share
delete_share-cases hash db v = (
  without_keys go left,
  delete_keys_free go left free,
  without_keys-IsOwned go left total v.once v.fresh,
  subst (λ ss. find (λ s. same s.share_id_hash hash) ss ≡ none)
      (sym (ap (λ (d : Database). d.shares) (without_keys_fields go left)))
      (live-removed hash db.shares),
)
  where
    left : Database
    left = record db { shares = keep (λ s. not (same s.share_id_hash hash)) db.shares }

    go : List ℕ
    go = share_keys (keep (λ s. same s.share_id_hash hash) db.shares)

    total : (k : ℕ) → count k (key_ids db.key_store) ≡ count k (referenced left) + count k go
    total k = omega (
      arith,
      v.owned k,
      count-referenced k db,
      count-referenced k left,
      count-removed k hash db.shares,
    )

    free : (k : ℕ) → 1 ≤ count k go → count k (referenced left) ≡ 0
    free k h = omega (arith, total k, v.once k)
