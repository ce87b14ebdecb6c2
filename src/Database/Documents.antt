-- ===== src/Database/Documents.antt =====
-- The statements on documents, with its triggers: worker/documentsEndpoint.ts runs them.
use txt.Prelude.{
  ℕ, ◌+◌, Option, none, some, List, [], ◌∷◌, ◌++◌, map, Bytes, ◌==◌, Bool, true, false, not, ◌&&◌,
  if◌then◌else◌, keep, find, length, codes,
}
use txt.Errors.{purpose_mismatch}
use txt.Effects.{ok, failed, Statement, then_statement}
use txt.Database.{Document, Database, access_key}
use txt.Database.Keys.{list_of, has_purpose, delete_keys}

abbrev pub is_null : {A : Type 0} → Option A → Bool
is_null none = true
is_null (some a) = false

abbrev pub update_documents :
    (Document → Bool) → (Document → Document) → List Document → List Document
update_documents p f = map (λ d. if p d then f d else d)

abbrev pub at_version : ℕ → ℕ → Document → Bool
at_version id version d = (d.id == id) && (d.access_version == version)

abbrev pub with_key_at : ℕ → ℕ → Document → Bool
with_key_at id version d = at_version id version d && not (is_null d.access_key_id)

abbrev pub without_key_at : ℕ → ℕ → Document → Bool
without_key_at id version d = at_version id version d && is_null d.access_key_id

unfoldable pub find_document : ℕ → Database → Option Document
find_document id db = find (λ d. d.id == id) db.documents

abbrev pub write_blob : Bytes → Document → Document
write_blob blob d = record d { access_blob = some blob; access_version = d.access_version + 1 }

abbrev pub write_key : ℕ → Bytes → Document → Document
write_key key blob d = record d {
  access_key_id = some key;
  access_blob = some blob;
  access_version = d.access_version + 1;
}

abbrev pub write_null : Document → Document
write_null d = record d {
  access_key_id = none;
  access_blob = none;
  access_version = d.access_version + 1;
}

-- UPDATE documents SET access_blob = ?, access_version = access_version + 1
-- WHERE id = ? AND access_version = ? AND access_key_id IS NOT NULL; the result is meta.changes.
unfoldable pub update_access : ℕ → ℕ → Bytes → Statement ℕ
update_access id version blob db =
    ok (length (keep (with_key_at id version) db.documents)) (record db {
      documents = update_documents (with_key_at id version) (write_blob blob) db.documents;
    })

-- UPDATE documents SET access_key_id = ?, ... WHERE ... AND access_key_id IS NULL. The trigger
-- trg_documents_access_key_purpose runs before each row that is updated.
unfoldable pub set_access_key : ℕ → ℕ → ℕ → Bytes → Statement ℕ
unfolding has_purpose
set_access_key key id version blob db =
    let rows = keep (without_key_at id version) db.documents in
    if (length rows == 0)
    then ok 0 db
    else if has_purpose access_key key db
    then ok (length rows) (record db {
      documents = update_documents (without_key_at id version) (write_key key blob) db.documents;
    })
    else failed (purpose_mismatch (codes "documents"))

abbrev pub access_keys : List Document → List ℕ
access_keys [] = []
access_keys (d ∷ ds) = list_of d.access_key_id ++ access_keys ds

-- UPDATE documents SET access_blob = NULL, access_key_id = NULL, ... WHERE id = ? AND
-- access_version = ?. The trigger trg_documents_clear_access_key then deletes the old keys.
unfoldable pub clear_access : ℕ → ℕ → Statement ℕ
unfolding delete_keys
clear_access id version db =
    let rows = keep (at_version id version) db.documents in
    let cleared = record db {
      documents = update_documents (at_version id version) write_null db.documents;
    } in
    then_statement (delete_keys (access_keys rows) cleared) (λ _ after. ok (length rows) after)
