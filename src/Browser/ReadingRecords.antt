-- ===== src/Browser/ReadingRecords.antt =====
-- ui/src/data/libraryStore.ts: the reading state that the browser keeps of a document, what it reads of it
-- from a decrypted blob, and the two calls that it makes of the worker.
use txt.Prelude.{
  ℕ, ◌==◌, Bool, true, false, Option, none, some, List, [], ◌∷◌, map, Text, Bytes, codes,
  if◌then◌else◌,
}
use txt.Json.{Value, null, str, num, obj, Number, end, entry, field}
use txt.Documents.{AccessWrite}
use txt.Browser.Failures.{
  Class, version_conflict, Settled, fulfilled, rejected, Failure, error, ◌>>=◌,
}
use txt.Browser.Validation.{object_record, number_in}

abbrev pub max_conflict_attempts : ℕ
max_conflict_attempts = 3

pub record DocumentSecret : Type 0 where
  pub access_key : Option Bytes
  pub access_version : ℕ
  pub last_accessed : Number
  pub last_cfi : Option Text

-- The part of a document's row that the store reads.
pub record AccessRow : Type 0 where
  pub access_blob : Option Bytes
  pub access_version : ℕ
  pub access_key_wrapped : Option Bytes

pub record AccessPayload : Type 0 where
  pub last_accessed : Number
  pub last_cfi : Option Text

cfi_in : Option Value → Settled (Option Text)
cfi_in (some null) = fulfilled none
cfi_in (some (str text)) = fulfilled (some text)
cfi_in _ = rejected (error (codes "access payload has an invalid last_cfi"))

unfoldable pub parse_access_payload : Value → Settled AccessPayload
unfolding cfi_in
parse_access_payload v = object_record v (codes "access payload") >>= λ fields.
    number_in (field "last_accessed" fields) (codes "access payload") >>= λ last_accessed.
    cfi_in (field "last_cfi" fields) >>= λ last_cfi.
    fulfilled (record { last_accessed = last_accessed; last_cfi = last_cfi })

nullable_text : Option Text → Value
nullable_text none = null
nullable_text (some text) = str text

unfoldable pub access_payload : Number → Option Text → Value
unfolding nullable_text
access_payload last_accessed last_cfi =
    obj (entry "last_accessed" (num last_accessed) (entry "last_cfi" (nullable_text last_cfi) end))

-- `this.secrets`, a map; the first entry of an id is its value.
unfoldable pub get_secret : ℕ → List (ℕ × DocumentSecret) → Option DocumentSecret
get_secret id [] = none
get_secret id ((key, secret) ∷ secrets) = if key == id then some secret else get_secret id secrets

unfoldable pub set_secret :
    ℕ → DocumentSecret → List (ℕ × DocumentSecret) → List (ℕ × DocumentSecret)
set_secret id secret [] = (id, secret) ∷ []
set_secret id secret ((key, old) ∷ secrets) =
    let rest = set_secret id secret secrets in
    if key == id then (key, secret) ∷ secrets else (key, old) ∷ rest

-- What a write changes of a book.
pub record Book : Type 0 where
  pub txt_id : ℕ
  pub last_accessed : Number

pub record Store : Type 0 where
  pub secrets : List (ℕ × DocumentSecret)
  pub books : List Book

unfoldable pub patch_book : ℕ → Number → List Book → List Book
patch_book id last_accessed =
    map (λ b. if b.txt_id == id then record b { last_accessed = last_accessed } else b)

-- The two calls of the API client: a document's row, `none` being a 404, and a write at a version.
pub record Server (S : Type 0) : Type 0 where
  pub fetch_document : ℕ → S → Settled (Option AccessRow) × S
  pub update_document_access : ℕ → AccessWrite → ℕ → S → Settled ℕ × S

-- What a call leaves: its result, the store and the server.
pub record Left (S A : Type 0) : Type 0 where
  pub settled : Settled A
  pub store : Store
  pub server : S

-- The random bytes of one write: the key of a first write, and the salts of the blob and of the key.
pub record Random : Type 0 where
  pub access_key : Bytes
  pub blob_salt : Bytes
  pub key_salt : Bytes

unfoldable pub is_version_conflict : Failure → Bool
is_version_conflict e = is_conflict e.class
  where
    is_conflict : Class → Bool
    is_conflict version_conflict = true
    is_conflict _ = false

unfoldable pub or_else : {A : Type 0} → Option A → A → A
or_else none a = a
or_else (some b) a = b

unfoldable pub or_other : {A : Type 0} → Option A → Option A → Option A
or_other none b = b
or_other (some a) b = some a

abbrev pub chain_on :
    {S A B : Type 0} → Settled A → Left S A → (A → Store → S → Left S B) → Left S B
chain_on (fulfilled a) left next = next a left.store left.server
chain_on (rejected e) left next = record {
  settled = rejected e;
  store = left.store;
  server = left.server;
}

-- `await` of one step and then the next, which sees what the step left.
infixl 5 ◌>=>◌
abbrev pub ◌>=>◌ : {S A B : Type 0} → Left S A → (A → Store → S → Left S B) → Left S B
left >=> next = chain_on left.settled left next
