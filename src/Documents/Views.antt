-- ===== src/Documents/Views.antt =====
-- worker/documentsEndpoint.ts: the states that a reader of the documents sees, the conditional write
-- on them, and what the statements do to them.
use txt.Prelude.{
  ℕ, ◌+◌, ◌≡◌, refl, Option, none, some, List, [], ◌∷◌, map, Bytes, ◌==◌, Bool, true, false, not,
  ◌&&◌, if◌then◌else◌, keep, find, any, length, arith,
}
use txt.Database.{Database, Document}
use txt.Database.Documents.{
  without_key_at, with_key_at, at_version, update_documents, write_blob, write_key, write_null,
  is_null,
}
use txt.Documents.{AccessWrite, clear, first, update}

-- What a reader sees of a document's reading state.
pub record AccessView : Type 0 where
  pub id : ℕ
  pub version : ℕ
  pub keyed : Bool
  pub blob : Option Bytes

abbrev pub view : Document → AccessView
view d = record {
  id = d.id;
  version = d.access_version;
  keyed = not (is_null d.access_key_id);
  blob = d.access_blob;
}

abbrev pub views : Database → List AccessView
views db = map view db.documents

-- Which state a write takes, and what it makes of it.
abbrev pub takes : AccessWrite → AccessView → Bool
takes clear v = true
takes (first blob wrapped) v = not v.keyed
takes (update blob) v = v.keyed

abbrev pub applies : ℕ → ℕ → AccessWrite → AccessView → Bool
applies id version write v = (v.id == id) && (v.version == version) && takes write v

abbrev pub written : AccessWrite → AccessView → AccessView
written clear v = record v { version = v.version + 1; keyed = false; blob = none }
written (first blob wrapped) v = record v {
  version = v.version + 1;
  keyed = true;
  blob = some blob;
}
written (update blob) v = record v { version = v.version + 1; blob = some blob }

-- The conditional write, and its status.
abbrev pub write_views : ℕ → ℕ → AccessWrite → List AccessView → List AccessView
write_views id version write = map (λ v. if applies id version write v then written write v else v)

abbrev pub write_status : ℕ → ℕ → AccessWrite → List AccessView → ℕ
write_status id version write vs =
    if any (applies id version write) vs then 200 else if any (λ v. v.id == id) vs then 412 else 404

pub update_views :
    (id version : ℕ) (blob : Bytes) (ds : List Document)
    → map view (update_documents (with_key_at id version) (write_blob blob) ds)
      ≡ write_views id version (update blob) (map view ds)
update_views id version blob [] = refl
update_views id version blob (d ∷ ds) = ground (arith, update_views id version blob ds)

pub first_views :
    (key id version : ℕ) (blob wrapped : Bytes) (ds : List Document)
    → map view (update_documents (without_key_at id version) (write_key key blob) ds)
      ≡ write_views id version (first blob wrapped) (map view ds)
first_views key id version blob wrapped [] = refl
first_views key id version blob wrapped (d ∷ ds) =
    ground (arith, first_views key id version blob wrapped ds)

pub clear_views :
    (id version : ℕ) (ds : List Document)
    → map view (update_documents (at_version id version) write_null ds)
      ≡ write_views id version clear (map view ds)
clear_views id version [] = refl
clear_views id version (d ∷ ds) = ground (arith, clear_views id version ds)

-- A write that applies to no state leaves them all.
pub write_views-none :
    (id version : ℕ) (write : AccessWrite) (vs : List AccessView)
    → any (applies id version write) vs ≡ false
    → write_views id version write vs ≡ vs
write_views-none id version write [] h = refl
write_views-none id version write (v ∷ vs) h = ground (arith, write_views-none id version write vs)

pub any-find :
    (id : ℕ) (ds : List Document)
    → is_null (find (λ (d : Document). d.id == id) ds)
      ≡ not (any (λ (v : AccessView). v.id == id) (map view ds))
any-find id [] = refl
any-find id (d ∷ ds) = ground (arith, any-find id ds)

-- The rows that a write changes are the states that it applies to.
pub update_rows :
    (id version : ℕ) (blob : Bytes) (ds : List Document)
    → (length (keep (with_key_at id version) ds) == 0)
      ≡ not (any (applies id version (update blob)) (map view ds))
update_rows id version blob [] = refl
update_rows id version blob (d ∷ ds) = ground (arith, update_rows id version blob ds)

pub first_rows :
    (id version : ℕ) (blob wrapped : Bytes) (ds : List Document)
    → (length (keep (without_key_at id version) ds) == 0)
      ≡ not (any (applies id version (first blob wrapped)) (map view ds))
first_rows id version blob wrapped [] = refl
first_rows id version blob wrapped (d ∷ ds) = ground (arith, first_rows id version blob wrapped ds)

pub clear_rows :
    (id version : ℕ) (ds : List Document)
    → (length (keep (at_version id version) ds) == 0)
      ≡ not (any (applies id version clear) (map view ds))
clear_rows id version [] = refl
clear_rows id version (d ∷ ds) = ground (arith, clear_rows id version ds)
