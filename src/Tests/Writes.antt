-- ===== src/Tests/Writes.antt =====
-- A reading position that is saved in spite of a stale reading state.
use txt.Prelude.{
  ℕ, ◌+◌, ◌≡◌, refl, Bool, true, false, not, ◌&&◌, Option, none, some, [], ◌∷◌, codes, replicate,
  ◌==◌, if◌then◌else◌,
}
use txt.Json.{int, pos}
use txt.Documents.{AccessWrite, clear, update, first}
use txt.Browser.Failures.{Settled, fulfilled, rejected, version_conflicts}
use txt.Browser.ReadingRecords.{DocumentSecret, AccessRow, Store, Server, Left, Random}
use txt.Browser.ReadingWrites.{
  update_reading_position, write_reading_position, with_version_conflict_retry,
}
use txt.Browser.ReadingWrites.Retries.{IsAttempted, with_version_conflict_retry-IsAttempted}
use txt.Tests.Data.{platform}
use txt.Tests.Blobs.{crypto}

abbrev keyed : {A : Type 0} → Option A → Bool
keyed none = false
keyed (some a) = true

-- What a write needs of the row: a first one, no key; another, one.
abbrev takes : AccessWrite → AccessRow → Bool
takes clear row = true
takes (first blob wrapped) row = not (keyed row.access_key_wrapped)
takes (update blob) row = keyed row.access_key_wrapped

abbrev written : AccessWrite → AccessRow → AccessRow
written clear row = record {
  access_blob = none;
  access_version = row.access_version + 1;
  access_key_wrapped = none;
}
written (first blob wrapped) row = record {
  access_blob = some blob;
  access_version = row.access_version + 1;
  access_key_wrapped = some wrapped;
}
written (update blob) row = record row {
  access_blob = some blob;
  access_version = row.access_version + 1;
}

-- A server that is the row of document 7.
abbrev after_write : AccessWrite → ℕ → AccessRow → Settled ℕ × AccessRow
after_write write version row =
    if (version == row.access_version) && takes write row
    then (fulfilled (row.access_version + 1), written write row)
    else (rejected version_conflicts, row)

abbrev server : Server AccessRow
server = record {
  fetch_document = λ id row. (fulfilled (some row), row);
  update_document_access = λ id write version row. after_write write version row;
}

-- The document was never opened; another device cleared it twice, so that the store's version is old.
abbrev unopened : AccessRow
unopened = record { access_blob = none; access_version = 4; access_key_wrapped = none }

abbrev stale : DocumentSecret
stale = record {
  access_key = some (codes "key");
  access_version = 2;
  last_accessed = int (pos 1);
  last_cfi = some (codes "a");
}

abbrev fresh : DocumentSecret
fresh = record {
  access_key = none;
  access_version = 4;
  last_accessed = int (pos 0);
  last_cfi = none;
}

abbrev store : Store
store = record {
  secrets = (7, stale) ∷ [];
  books = record { txt_id = 7; last_accessed = int (pos 1) } ∷ [];
}

abbrev random : ℕ → Random
random attempt = record {
  access_key = replicate 128 attempt;
  blob_salt = replicate 64 1;
  key_salt = replicate 64 2;
}

abbrev attempt : ℕ → Store → AccessRow → Left AccessRow (Unit {0})
attempt n =
    write_reading_position crypto platform (codes "umk") server 7 (some (codes "b"))
      (some (int (pos 9))) (random n)

-- The first attempt meets a version conflict, and the second, with the new reading state, is taken.
stale_is_refused : (attempt 2 store unopened).settled ≡ rejected version_conflicts
unfolding write_reading_position
stale_is_refused = refl

saved_in_spite :
    let left =
      update_reading_position crypto platform
        (codes "umk")
        server
        7
        (some (codes "b"))
        (some (int (pos 9)))
        random
        store
        unopened in
    (left.settled ≡ fulfilled tt) × (left.server.access_version ≡ 5)
unfolding update_reading_position
saved_in_spite = (refl, refl)

with_version_conflict_retry-IsAttempted_example :
    IsAttempted crypto platform
      (codes "umk")
      server
      7
      attempt
      2
      store
      unopened
      (with_version_conflict_retry crypto platform (codes "umk") server 7 attempt store unopened)
with_version_conflict_retry-IsAttempted_example =
    with_version_conflict_retry-IsAttempted crypto platform (codes "umk") server 7 attempt store
      unopened
