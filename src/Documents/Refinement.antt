-- ===== src/Documents/Refinement.antt =====
-- worker/documentsEndpoint.ts: the three writes of reading state refine one conditional write on the
-- state that a reader of the documents sees, which forgets the keys.
use txt.Prelude.{
  ℕ, ◌≡◌, refl, sym, ◌∙◌, ap, subst, ◌⊎◌, inl, inr, Option, none, some, List, map, Bytes, ◌==◌,
  Bool, true, false, not, if◌then◌else◌, keep, find, any, length, Bool-cases, Text, codes,
}
use txt.Json.{Fields}
use txt.Effects.{
  World, Reply, ok, failed, Succeeds, Returns, run, Program, returns, ◌>>=◌, ◌>>◌, query, commit,
  answer,
}
use txt.Effects.Runs.{Returns-map, Succeeds-map}
use txt.Http.{respond, Response, accepted}
use txt.Database.{Database, access_key, Document}
use txt.Database.Keys.{insert_key, delete_key, has_purpose}
use txt.Database.Documents.{
  update_access, set_access_key, clear_access, without_key_at, update_documents, write_key, is_null,
  find_document,
}
use txt.Database.Ownership.{
  IsOwned, with_new_key, has_purpose-with_new_key, without_key, delete_unused_key,
}
use txt.Database.DocumentKeys.{clear_access-documents}
use txt.Platform.{Platform}
use txt.Documents.{
  update_document_access, first_access_write, clear_document_access, conflict_or_not_found,
  write_access, AccessWrite, clear, first, update, first_access_batch, version_response,
  document_exists, parse_patch, patch_document, handle_patch_document_access,
}
use txt.Documents.Views.{
  update_views, first_views, clear_views, any-find, update_rows, first_rows, clear_rows,
  write_views-none, AccessView, view, views, applies, write_views, write_status,
}

abbrev missing_status : ℕ → List AccessView → ℕ
missing_status id vs = if any (λ v. v.id == id) vs then 412 else 404

exists_status :
    (row : Option Document) (exists : Bool) (conflict missing : Text)
    → is_null row ≡ not exists
    → (if (elim row [ none ↦ false | some d ↦ true ])
        then respond conflict 412
        else respond missing 404).status
      ≡ (if exists then 412 else 404)
exists_status none true conflict missing h = cc
exists_status none false conflict missing h = refl
exists_status (some d) true conflict missing h = refl
exists_status (some d) false conflict missing h = cc

-- The second look tells a document at another version from one that is not there.
conflict_status :
    (id : ℕ) (w : World)
    → Returns
        (λ response after. (response.status ≡ missing_status id (views w.db)) × (after ≡ w))
        (run (conflict_or_not_found id) w)
unfolding conflict_or_not_found document_exists find_document
conflict_status id w = (
  exists_status (find (λ (d : Document). d.id == id) w.db.documents)
      (any (λ v. v.id == id) (views w.db)) (codes "access_version conflict")
      (codes "document not found") (any-find id w.db.documents),
  refl,
)

-- The outcome of a write: the status and the states that the conditional write gives.
abbrev pub Refines : ℕ → ℕ → AccessWrite → World → Program Response → Type 0
Refines id version write w m =
    Returns
      (λ response after.
        (response.status ≡ write_status id version write (views w.db))
        × (views after.db ≡ write_views id version write (views w.db)))
      (run m w)

missed :
    (id version : ℕ) (write : AccessWrite) (w after : World)
    → any (applies id version write) (views w.db) ≡ false
    → views after.db ≡ views w.db
    → Returns
        (λ response end.
          (response.status ≡ write_status id version write (views w.db))
          × (views end.db ≡ write_views id version write (views w.db)))
        (run (conflict_or_not_found id) after)
missed id version write w after miss same_views =
    Returns-map _ _ (run (conflict_or_not_found id) after)
      (λ response end (status, same). (
        status ∙ ap (missing_status id) same_views ∙ rw miss refl,
        ap (λ (x : World). views x.db) same
            ∙ same_views
            ∙ sym (write_views-none id version write (views w.db) miss),
      ))
      (conflict_status id after)

-- After a statement that counts the rows it changed.
after_changes :
    (id version : ℕ) (write : AccessWrite) (w : World) (r : Reply ℕ)
    → Succeeds
        (λ changes after.
          ((changes == 0) ≡ not (any (applies id version write) (views w.db)))
          × (views after ≡ write_views id version write (views w.db)))
        r
    → Returns
        (λ response end.
          (response.status ≡ write_status id version write (views w.db))
          × (views end.db ≡ write_views id version write (views w.db)))
        (run
          (answer r >>= (λ changes.
            if changes == 0 then conflict_or_not_found id else returns (version_response version)))
          (commit w r))
unfolding version_response
after_changes id version write w (failed e) h = absurd h
after_changes id version write w (ok n db) h =
    elim (Bool-cases (any (applies id version write) (views w.db))) [
      | inl hit ↦ rw (h.0 ∙ ap not hit) (rw hit refl, h.1)
      | inr miss ↦ rw (h.0 ∙ ap not miss) (
          missed id version write w (record w { db = db }) miss
            (h.1 ∙ write_views-none id version write (views w.db) miss))
    ]

update-Refines :
    (id version : ℕ) (blob : Bytes) (w : World)
    → Refines id version (update blob) w (update_document_access id version blob)
unfolding update_document_access update_access
update-Refines id version blob w =
    after_changes id version (update blob) w (update_access id version blob w.db)
      (update_rows id version blob w.db.documents, update_views id version blob w.db.documents)

clear-Refines :
    (id version : ℕ) (w : World)
    → IsOwned w.db
    → Refines id version clear w (clear_document_access id version)
unfolding clear_document_access
clear-Refines id version w v = after_changes id version clear w (clear_access id version w.db) (
    Succeeds-map _ _ (clear_access id version w.db)
      (λ changes after (n, documents). (
        ap (λ k. k == 0) n ∙ clear_rows id version w.db.documents,
        ap (map view) documents ∙ clear_views id version w.db.documents,
      ))
      (clear_access-documents id version w.db v))

set_access_key-documents :
    (key id version : ℕ) (blob : Bytes) (db : Database)
    → has_purpose access_key key db ≡ true
    → (((length (keep (without_key_at id version) db.documents) == 0) ≡ true)
        × (set_access_key key id version blob db ≡ ok 0 db))
      ⊎ (((length (keep (without_key_at id version) db.documents) == 0) ≡ false)
          × (set_access_key key id version blob db
              ≡ ok (length (keep (without_key_at id version) db.documents)) (record db {
                documents =
                    update_documents (without_key_at id version) (write_key key blob) db.documents;
              })))
unfolding set_access_key
set_access_key-documents key id version blob db purpose =
    elim (Bool-cases (length (keep (without_key_at id version) db.documents) == 0)) [
      | inl e ↦ inl (e, rw e refl)
      | inr e ↦ inr (e, rw (e, purpose) refl)
    ]

-- The outcome of the statements after the batch of a first write.
abbrev Finishes : ℕ → ℕ → AccessWrite → World → Reply (ℕ × ℕ) → Type 0
Finishes id version write w r =
    Returns
      (λ response after.
        (response.status ≡ write_status id version write (views w.db))
        × (views after.db ≡ write_views id version write (views w.db)))
      (run
        (answer r >>= (λ (key, changes).
          if changes == 0
          then query (delete_key key) >> conflict_or_not_found id
          else returns (version_response version)))
        (commit w r))

batch_hit :
    (id version key changes : ℕ) (write : AccessWrite) (w : World) (after : Database)
    → (changes == 0) ≡ false
    → any (applies id version write) (views w.db) ≡ true
    → views after ≡ write_views id version write (views w.db)
    → Finishes id version write w (ok (key, changes) after)
unfolding version_response
batch_hit id version key changes write w after some_rows hit same = rw some_rows (rw hit refl, same)

batch_missed :
    (id version key : ℕ) (write : AccessWrite) (w : World) (after later : Database)
    → delete_key key after ≡ ok tt later
    → any (applies id version write) (views w.db) ≡ false
    → views later ≡ views w.db
    → Finishes id version write w (ok (key, 0) after)
batch_missed id version key write w after later e miss same = deleted (delete_key key after) e
  where
    deleted :
        (r : Reply (Unit {0}))
        → r ≡ ok tt later
        → Returns
            (λ response end.
              (response.status ≡ write_status id version write (views w.db))
              × (views end.db ≡ write_views id version write (views w.db)))
            (run (answer r >> conflict_or_not_found id) (commit (record w { db = after }) r))
    deleted r f = rw f (missed id version write w (record w { db = later }) miss same)

not_is : (b c : Bool) → not b ≡ c → b ≡ not c
not_is true c h = rw (← h) refl
not_is false c h = rw (← h) refl

batch_of :
    (id version : ℕ) (blob wrapped : Bytes) (now changes : ℕ) (db after : Database)
    → set_access_key db.next_key id version blob (with_new_key access_key wrapped now db)
      ≡ ok changes after
    → first_access_batch id version blob wrapped now db ≡ ok (db.next_key, changes) after
unfolding first_access_batch insert_key with_new_key
batch_of id version blob wrapped now changes db after e = rw e refl

first-Refines :
    (id version : ℕ) (blob wrapped : Bytes) (now : ℕ) (w : World)
    → IsOwned w.db
    → Refines id version (first blob wrapped) w (first_access_write id version blob wrapped now)
unfolding first_access_write with_new_key without_key
first-Refines id version blob wrapped now w v =
    elim (set_access_key-documents w.db.next_key id version blob
      (with_new_key access_key wrapped now w.db)
      (has_purpose-with_new_key access_key wrapped now w.db)) [
        | inl (no_rows, e) ↦
            subst (Finishes id version (first blob wrapped) w)
              (sym (batch_of id version blob wrapped now 0 w.db _ e))
              (batch_missed id version w.db.next_key (first blob wrapped) w _ _
                (delete_unused_key wrapped now w.db v)
                (not_is _ _ (sym (first_rows id version blob wrapped w.db.documents) ∙ no_rows))
                refl)
        | inr (rows, e) ↦
            subst (Finishes id version (first blob wrapped) w)
              (sym (batch_of id version blob wrapped now _ w.db _ e))
              (batch_hit id version w.db.next_key _ (first blob wrapped) w _ rows
                (not_is _ _ (sym (first_rows id version blob wrapped w.db.documents) ∙ rows))
                (first_views w.db.next_key id version blob wrapped w.db.documents))
      ]

write_access-Refines :
    (id version : ℕ) (write : AccessWrite) (now : ℕ) (w : World)
    → IsOwned w.db
    → Refines id version write w (write_access id version write now)
unfolding write_access
write_access-Refines id version clear now w v = clear-Refines id version w v
write_access-Refines id version (first blob wrapped) now w v =
    first-Refines id version blob wrapped now w v
write_access-Refines id version (update blob) now w v = update-Refines id version blob w

-- Every well-formed PATCH of reading state, whichever of the three writes it asks for, ends in a
-- response. Its status is 200 where the write applies to a document of the id at the version, 412
-- where the document is there and it does not, and 404 where there is none; the states of the
-- documents after it are those that the conditional write gives, so that a write that is refused
-- changes none. It takes a key store in which each key belongs to one row.
pub handle_patch_document_access-Refines :
    (platform : Platform) (id_param : Text) (body : Fields) (id version : ℕ) (write : AccessWrite)
    (now : ℕ) (w : World)
    → parse_patch (platform.number_of id_param) body ≡ accepted (id, version, write)
    → IsOwned w.db
    → Refines id version write w (handle_patch_document_access platform id_param body now)
unfolding handle_patch_document_access patch_document
handle_patch_document_access-Refines platform id_param body id version write now w e v =
    subst (λ p. Refines id version write w (patch_document p now)) (sym e)
      (write_access-Refines id version write now w v)
