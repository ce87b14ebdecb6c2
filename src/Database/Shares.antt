-- ===== src/Database/Shares.antt =====
-- The statements on shares, with its triggers: worker/sharesEndpoint.ts and
-- worker/sharedUrlEndpoint.ts run them. The CHECK on the length of a hash is left out: every hash is
-- a SHA-256 digest.
use txt.Prelude.{
  ℕ, Option, none, some, List, [], ◌∷◌, map, Bytes, ◌==◌, ltb, Bool, true, false, not, ◌&&◌, ◌||◌,
  same, if◌then◌else◌, keep, find, any, length, codes,
}
use txt.Json.{ℤ}
use txt.Errors.{purpose_mismatch, foreign_key_failed, share_id_taken, object_path_taken}
use txt.Effects.{ok, failed, Statement}
use txt.Database.{Share, ShareState, active, deleting, is_active, Database, share_key}
use txt.Database.Keys.{share_keys, has_purpose, wrapped_key_of, delete_keys}
use txt.Database.Documents.{is_null}
use txt.Database.Bookmarks.{referenced_document}

unfoldable pub find_share : Bytes → Database → Option Share
find_share hash db = find (λ s. same s.share_id_hash hash) db.shares

path_taken : Bytes → Database → Bool
path_taken hash db = any (λ s. same s.object_path_hash hash) db.shares

-- INSERT INTO shares (...) VALUES (..., 'active', ...).
unfoldable pub insert_share : Bytes → ℤ → Bytes → ℕ → Bytes → ℕ → Statement (Unit {0})
unfolding has_purpose find_share path_taken referenced_document
insert_share hash doc path_hash key owner_blob now db =
    if has_purpose share_key key db
    then if is_null (find_share hash db)
      then if path_taken path_hash db
        then failed object_path_taken
        else elim (referenced_document doc db) [
          | none ↦ failed foreign_key_failed
          | some id ↦ ok tt (record db {
            shares =
                record {
                  share_id_hash = hash;
                  document_id = id;
                  object_path_hash = path_hash;
                  key_id = key;
                  owner_blob = owner_blob;
                  state = active;
                  created_at = now;
                }
                ∷ db.shares;
          })
        ]
      else failed share_id_taken
    else failed (purpose_mismatch (codes "shares"))

abbrev pub set_state : (Share → Bool) → ShareState → List Share → List Share
set_state p state = map (λ s. if p s then record s { state = state } else s)

-- UPDATE shares SET state = 'active' WHERE share_id_hash = ? AND state != 'active'.
unfoldable pub activate : Bytes → Statement ℕ
activate hash db =
    let stale = λ (s : Share). same s.share_id_hash hash && not (is_active s.state) in
    ok (length (keep stale db.shares)) (record db { shares = set_state stale active db.shares })

-- UPDATE shares SET state = 'deleting' WHERE share_id_hash = ? AND state = 'active'.
unfoldable pub mark_deleting : Bytes → Statement ℕ
mark_deleting hash db =
    let live = λ (s : Share). same s.share_id_hash hash && is_active s.state in
    ok (length (keep live db.shares)) (record db { shares = set_state live deleting db.shares })

-- DELETE FROM shares WHERE share_id_hash = ?, with trg_shares_delete_key.
unfoldable pub delete_share : Bytes → Statement (Unit {0})
unfolding delete_keys
delete_share hash db =
    delete_keys (share_keys (keep (λ s. same s.share_id_hash hash) db.shares))
      (record db { shares = keep (λ s. not (same s.share_id_hash hash)) db.shares })

unfoldable pub select_share : Bytes → Statement (Option Share)
unfolding find_share
select_share hash db = ok (find_share hash db) db

-- SELECT object_path_hash FROM shares WHERE share_id_hash = ? AND state = 'active'.
unfoldable pub select_active_share : Bytes → Statement (Option Share)
select_active_share hash db =
    ok (find (λ s. same s.share_id_hash hash && is_active s.state) db.shares) db

-- Byte strings in the order of SQLite's BLOBs.
blob_lt : Bytes → Bytes → Bool
blob_lt [] [] = false
blob_lt [] (y ∷ ys) = true
blob_lt (x ∷ xs) [] = false
blob_lt (x ∷ xs) (y ∷ ys) = ltb x y || ((x == y) && blob_lt xs ys)

abbrev share_earlier : Share → Share → Bool
share_earlier a b =
    ltb a.created_at b.created_at
    || ((a.created_at == b.created_at) && blob_lt a.share_id_hash b.share_id_hash)

insert_share_sorted : Share → List Share → List Share
unfolding blob_lt
insert_share_sorted a [] = a ∷ []
insert_share_sorted a (b ∷ bs) =
    let later = b ∷ insert_share_sorted a bs in if share_earlier a b then a ∷ b ∷ bs else later

shares_by_time : List Share → List Share
unfolding insert_share_sorted
shares_by_time [] = []
shares_by_time (s ∷ ss) = insert_share_sorted s (shares_by_time ss)

share_joined_with : Share → Option Bytes → List (Share × Bytes) → List (Share × Bytes)
share_joined_with s none rows = rows
share_joined_with s (some wrapped) rows = (s, wrapped) ∷ rows

shares_joined : Database → List Share → List (Share × Bytes)
unfolding share_joined_with
shares_joined db [] = []
shares_joined db (s ∷ ss) = share_joined_with s (wrapped_key_of s.key_id db) (shares_joined db ss)

-- SHARES_QUERY.
unfoldable pub select_shares : Statement (List (Share × Bytes))
unfolding shares_by_time shares_joined
select_shares db = ok (shares_joined db (shares_by_time db.shares)) db
