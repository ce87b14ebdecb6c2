-- ===== src/Browser/ReadingWrites.antt =====
-- ui/src/data/libraryStore.ts: the writes of a document's reading state, and their retries after a
-- version conflict.
pub mod Retries
use txt.Prelude.{
  ℕ, zero, suc, ◌+◌, ◌==◌, Bool, true, false, Option, none, some, List, [], ◌∷◌, map, Text, Bytes,
  codes, if◌then◌else◌,
}
use txt.Json.{Value, null, str, num, int, pos, nat, obj, Number, Fields, end, entry, field}
use txt.Platform.{Platform}
use txt.Documents.{AccessWrite, clear, update, first}
use txt.Browser.Failures.{
  Class, version_conflict, Settled, fulfilled, rejected, Failure, error, ◌>>=◌,
}
use txt.Browser.Validation.{object_record, number_in}
use txt.Browser.CryptoBlob.{Crypto, encrypt, decrypt, encrypt_json, decrypt_json}
use txt.Browser.ReadingRecords.{
  max_conflict_attempts, DocumentSecret, AccessRow, AccessPayload, parse_access_payload,
  access_payload, get_secret, set_secret, Book, Store, patch_book, Server, Left, Random,
  is_version_conflict, or_else, or_other, chain_on, ◌>=>◌,
}

module _ (crypto : Crypto) (platform : Platform) (umk : Bytes) where
  unwrapped : Option Bytes → Option Bytes → ℕ → Settled DocumentSecret
  unwrapped (some blob) (some key_wrapped) version =
      decrypt crypto key_wrapped umk >>= λ access_key.
      decrypt_json crypto platform blob access_key >>= λ v. parse_access_payload v >>= λ access.
      fulfilled (record {
        access_key = some access_key;
        access_version = version;
        last_accessed = access.last_accessed;
        last_cfi = access.last_cfi;
      })
  unwrapped _ _ version = fulfilled (record {
    access_key = none;
    access_version = version;
    last_accessed = int (pos 0);
    last_cfi = none;
  })

  unfoldable pub unwrap_document_secret : AccessRow → Settled DocumentSecret
  unfolding unwrapped decrypt decrypt_json parse_access_payload
  unwrap_document_secret row = unwrapped row.access_blob row.access_key_wrapped row.access_version

  -- The blob of the next state, and the write that carries it.
  sealed_write : Option Bytes → Number → Option Text → Random → Settled (Bytes × AccessWrite)
  sealed_write none last_accessed last_cfi random =
      encrypt_json crypto platform (access_payload last_accessed last_cfi) random.access_key
        random.blob_salt
      >>= λ blob. encrypt crypto random.access_key umk random.key_salt >>= λ key_wrapped.
          fulfilled (random.access_key, first blob key_wrapped)
  sealed_write (some access_key) last_accessed last_cfi random =
      encrypt_json crypto platform (access_payload last_accessed last_cfi) access_key
        random.blob_salt
      >>= λ blob. fulfilled (access_key, update blob)

  unfoldable pub seal_write :
      Option Bytes → Number → Option Text → Random → Settled (Bytes × AccessWrite)
  unfolding sealed_write encrypt encrypt_json access_payload
  seal_write = sealed_write

  module _ {S : Type 0} (server : Server S) where
    unwrap_and_set : ℕ → Option AccessRow → Store → S → Left S DocumentSecret
    unwrap_and_set id none store s = record {
      settled = rejected (error (codes "document not found"));
      store = store;
      server = s;
    }
    unwrap_and_set id (some row) store s =
        (record { settled = unwrap_document_secret row; store = store; server = s })
        >=> λ secret store s. record {
          settled = fulfilled secret;
          store = record store { secrets = set_secret id secret store.secrets };
          server = s;
        }

    unfoldable pub refresh_access_secret : ℕ → Store → S → Left S DocumentSecret
    unfolding unwrap_and_set unwrap_document_secret set_secret
    refresh_access_secret id store s =
        let (row, t) = server.fetch_document id s in
        (record { settled = row; store = store; server = t }) >=> unwrap_and_set id

    ensured : Option DocumentSecret → ℕ → Store → S → Left S DocumentSecret
    ensured (some secret) id store s = record {
      settled = fulfilled secret;
      store = store;
      server = s;
    }
    ensured none id store s = refresh_access_secret id store s

    unfoldable pub ensure_secret : ℕ → Store → S → Left S DocumentSecret
    unfolding ensured refresh_access_secret get_secret
    ensure_secret id store s = ensured (get_secret id store.secrets) id store s

    -- `this.api.updateDocumentAccess` at the secret's version.
    sent : ℕ → AccessWrite → ℕ → Store → S → Left S ℕ
    sent id write version store s =
        let (settled, t) = server.update_document_access id write version s in
        record { settled = settled; store = store; server = t }

    kept : ℕ → DocumentSecret → Store → S → Left S (Unit {0})
    unfolding set_secret patch_book
    kept id secret store s = record {
      settled = fulfilled tt;
      store = record {
        secrets = set_secret id secret store.secrets;
        books = patch_book id secret.last_accessed store.books;
      };
      server = s;
    }

    unfoldable pub write_reading_position :
        ℕ → Option Text → Option Number → Random → Store → S → Left S (Unit {0})
    unfolding ensure_secret seal_write sent kept or_else or_other
    write_reading_position id cfi accessed random store s =
        ensure_secret id store s >=> λ secret store s.
        let last_accessed = or_else accessed secret.last_accessed in
        let last_cfi = or_other cfi secret.last_cfi in
        (record {
          settled = seal_write secret.access_key last_accessed last_cfi random;
          store = store;
          server = s;
        })
        >=> λ (access_key, write) store s.
            sent id write secret.access_version store s >=> λ version. kept id (record {
              access_key = some access_key;
              access_version = version;
              last_accessed = last_accessed;
              last_cfi = last_cfi;
            })

    cleared : ℕ → Option Bytes → ℕ → Store → S → Left S (Unit {0})
    unfolding sent kept
    cleared id none version store s = record { settled = fulfilled tt; store = store; server = s }
    cleared id (some key) version store s = sent id clear version store s >=> λ next.
        kept id (record {
          access_key = none;
          access_version = next;
          last_accessed = int (pos 0);
          last_cfi = none;
        })

    unfoldable pub write_clear_access : ℕ → Store → S → Left S (Unit {0})
    unfolding ensure_secret cleared
    write_clear_access id store s =
        ensure_secret id store s >=> λ secret. cleared id secret.access_key secret.access_version

    -- The `catch` of an attempt, with the attempts that are left after it.
    retried :
        Settled (Unit {0})
        → Left S (Unit {0})
        → ℕ
        → ℕ
        → (Store → S → Left S (Unit {0}))
        → Left S (Unit {0})
    unfolding refresh_access_secret is_version_conflict
    retried (fulfilled u) left id attempts again = left
    retried (rejected e) left id zero again = left
    retried (rejected e) left id (suc attempts) again =
        if is_version_conflict e
        then refresh_access_secret id left.store left.server >=> (λ _. again)
        else left

    -- The loop: `attempts` are those left after the present one. Each draws its own random bytes.
    unfoldable pub attempt_writes :
        ℕ → ℕ → (ℕ → Store → S → Left S (Unit {0})) → Store → S → Left S (Unit {0})
    unfolding retried
    attempt_writes id zero write store s =
        let left = write zero store s in retried left.settled left id zero (λ t u. left)
    attempt_writes id (suc attempts) write store s =
        let left = write (suc attempts) store s in
        retried left.settled left id (suc attempts) (attempt_writes id attempts write)

    unfoldable pub with_version_conflict_retry :
        ℕ → (ℕ → Store → S → Left S (Unit {0})) → Store → S → Left S (Unit {0})
    unfolding attempt_writes
    with_version_conflict_retry id write = attempt_writes id 2 write

    unfoldable pub update_reading_position :
        ℕ → Option Text → Option Number → (ℕ → Random) → Store → S → Left S (Unit {0})
    unfolding with_version_conflict_retry write_reading_position
    update_reading_position id cfi accessed random =
        with_version_conflict_retry id
          (λ attempt. write_reading_position id cfi accessed (random attempt))

    clear_if_keyed : Option DocumentSecret → ℕ → Store → S → Left S (Unit {0})
    unfolding with_version_conflict_retry write_clear_access
    clear_if_keyed none id store s = record { settled = fulfilled tt; store = store; server = s }
    clear_if_keyed (some secret) id store s = elim secret.access_key [
      | none ↦ record { settled = fulfilled tt; store = store; server = s }
      | some key ↦ with_version_conflict_retry id (λ _. write_clear_access id) store s
    ]

    unfoldable pub clear_last_accessed : ℕ → Store → S → Left S (Unit {0})
    unfolding clear_if_keyed get_secret
    clear_last_accessed id store s = clear_if_keyed (get_secret id store.secrets) id store s
