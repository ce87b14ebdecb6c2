-- ===== src/Documents/Ownership.antt =====
-- worker/documentsEndpoint.ts: every write of reading state keeps the key store exact.
use txt.Prelude.{ℕ, ◌+◌, ◌≡◌, ◌∙◌, ap, ◌⊎◌, inl, inr, Bytes, ◌==◌, if◌then◌else◌, Bool-cases, Text}
use txt.Json.{Fields}
use txt.Effects.{
  World, Reply, ok, failed, Succeeds, Returns, run, Program, returns, ◌>>=◌, ◌>>◌, query, commit,
  answer,
}
use txt.Http.{Response, Checked, rejected, accepted}
use txt.Platform.{Platform}
use txt.Database.{Database, access_key}
use txt.Database.Keys.{insert_key, delete_key}
use txt.Database.Documents.{update_access, clear_access}
use txt.Database.Ownership.{
  count, IsOwned, with_new_key, has_purpose-with_new_key, referenced-with_new_key, without_key,
  without_new_key-IsOwned, with_new_key-IsOwned, delete_unused_key,
}
use txt.Database.DocumentLaws.{HasDistinctIds}
use txt.Database.DocumentKeys.{update_access-IsOwned, set_access_key-cases, clear_access-IsOwned}
use txt.Documents.{
  patch_document, parse_patch, update_document_access, first_access_write, clear_document_access,
  conflict_or_not_found, write_access, AccessWrite, clear, first, update,
  handle_patch_document_access, first_access_batch, version_response,
}

abbrev KeepsOwned : Program Response → World → Type 0
KeepsOwned m w = Returns (λ response after. IsOwned after.db) (run m w)

conflict_or_not_found-IsOwned :
    (id : ℕ) (w : World) → IsOwned w.db → KeepsOwned (conflict_or_not_found id) w
unfolding conflict_or_not_found
conflict_or_not_found-IsOwned id w v = v

after_update :
    (id version : ℕ) (w : World) (r : Reply ℕ) (g : ℕ → Response)
    → Succeeds (λ changes after. IsOwned after) r
    → Returns
        (λ response after. IsOwned after.db)
        (run
          (answer r
            >>= (λ changes. if changes == 0 then conflict_or_not_found id else returns (g changes)))
          (commit w r))
after_update id version w (ok n db) g h = elim (Bool-cases (n == 0)) [
  | inl e ↦ rw e (conflict_or_not_found-IsOwned id (record w { db = db }) h)
  | inr e ↦ rw e h
]
after_update id version w (failed e) g h = absurd h

update_document_access-IsOwned :
    (id version : ℕ) (blob : Bytes) (w : World)
    → IsOwned w.db
    → KeepsOwned (update_document_access id version blob) w
unfolding update_document_access
update_document_access-IsOwned id version blob w v =
    after_update id version w (update_access id version blob w.db) _
      (update_access-IsOwned id version blob w.db v)

clear_document_access-IsOwned :
    (id version : ℕ) (w : World) → IsOwned w.db → KeepsOwned (clear_document_access id version) w
unfolding clear_document_access
clear_document_access-IsOwned id version w v =
    after_update id version w (clear_access id version w.db) _
      (clear_access-IsOwned id version w.db v)

-- The batch of a first write: the key is left over, or the one row owns it.
first_access_batch-cases :
    (id version : ℕ) (blob wrapped : Bytes) (now : ℕ) (db : Database)
    → IsOwned db
    → HasDistinctIds db
    → (first_access_batch id version blob wrapped now db
        ≡ ok (db.next_key, 0) (with_new_key access_key wrapped now db))
      ⊎ ((after : Database) × (first_access_batch id version blob wrapped now db
            ≡ ok (db.next_key, 1) after)
          × IsOwned after)
unfolding first_access_batch insert_key with_new_key
first_access_batch-cases id version blob wrapped now db v u =
    elim (set_access_key-cases db.next_key id version blob inserted
      (record { distinct = u.distinct }) (has_purpose-with_new_key access_key wrapped now db)) [
        | inl missed ↦ inl (rw missed)
        | inr (after, e, same_keys, same_next, counts) ↦ inr (
          after,
          rw e,
          with_new_key-IsOwned access_key wrapped now db after v same_keys same_next (λ k.
              counts k
              ∙ ap (λ ks. count k ks + (if db.next_key == k then 1 else 0))
                  (referenced-with_new_key access_key wrapped now db)),
        )
      ]
  where
    inserted : Database
    inserted = with_new_key access_key wrapped now db

delete_then_conflict :
    (id : ℕ) (after : Database) (w : World) (r : Reply (Unit {0}))
    → r ≡ ok tt after
    → IsOwned after
    → Returns
        (λ response end. IsOwned end.db)
        (run (answer r >> conflict_or_not_found id) (commit w r))
unfolding conflict_or_not_found
delete_then_conflict id after w r e v = rw e v

first_access_write-IsOwned :
    (id version : ℕ) (blob wrapped : Bytes) (now : ℕ) (w : World)
    → IsOwned w.db
    → HasDistinctIds w.db
    → KeepsOwned (first_access_write id version blob wrapped now) w
unfolding first_access_write
first_access_write-IsOwned id version blob wrapped now w v u =
    finish (first_access_batch id version blob wrapped now w.db)
      (first_access_batch-cases id version blob wrapped now w.db v u)
  where
    inserted : Database
    inserted = with_new_key access_key wrapped now w.db

    finish :
        (r : Reply (ℕ × ℕ))
        → (r ≡ ok (w.db.next_key, 0) (with_new_key access_key wrapped now w.db))
          ⊎ ((after : Database) × (r ≡ ok (w.db.next_key, 1) after) × IsOwned after)
        → Returns
            (λ response after. IsOwned after.db)
            (run
              (answer r >>= (λ (key, changes).
                if changes == 0
                then query (delete_key key) >> conflict_or_not_found id
                else returns (version_response version)))
              (commit w r))
    finish r (inl e) = rw e (
        delete_then_conflict id (without_key w.db.next_key inserted) (record w { db = inserted })
          (delete_key w.db.next_key inserted) (delete_unused_key wrapped now w.db v)
          (without_new_key-IsOwned access_key wrapped now w.db v))
    finish r (inr (after, e, owned)) = rw e owned

write_access-IsOwned :
    (id version : ℕ) (write : AccessWrite) (now : ℕ) (w : World)
    → IsOwned w.db
    → HasDistinctIds w.db
    → KeepsOwned (write_access id version write now) w
unfolding write_access
write_access-IsOwned id version clear now w v u = clear_document_access-IsOwned id version w v
write_access-IsOwned id version (first blob wrapped) now w v u =
    first_access_write-IsOwned id version blob wrapped now w v u
write_access-IsOwned id version (update blob) now w v u =
    update_document_access-IsOwned id version blob w v

patch_document-IsOwned :
    (patch : Checked (ℕ × ℕ × AccessWrite)) (now : ℕ) (w : World)
    → IsOwned w.db
    → HasDistinctIds w.db
    → KeepsOwned (patch_document patch now) w
unfolding patch_document
patch_document-IsOwned (rejected r) now w v u = v
patch_document-IsOwned (accepted (id, version, write)) now w v u =
    write_access-IsOwned id version write now w v u

-- Every write of reading state, whichever of the three and whether or not it finds the document at
-- the version, ends in a response and leaves the key store with exactly the keys that rows own.
pub handle_patch_document_access-IsOwned :
    (platform : Platform) (id_param : Text) (body : Fields) (now : ℕ) (w : World)
    → IsOwned w.db
    → HasDistinctIds w.db
    → KeepsOwned (handle_patch_document_access platform id_param body now) w
unfolding handle_patch_document_access
handle_patch_document_access-IsOwned platform id_param body now w v u =
    patch_document-IsOwned (parse_patch (platform.number_of id_param) body) now w v u
