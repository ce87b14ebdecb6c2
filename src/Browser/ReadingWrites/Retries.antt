-- ===== src/Browser/ReadingWrites/Retries.antt =====
-- How a write of reading state is tried again after a version conflict.
use txt.Prelude.{ℕ, zero, suc, ◌≡◌, refl, inl, inr, true, false, Bool-cases, Bytes}
use txt.Platform.{Platform}
use txt.Browser.Failures.{Settled, fulfilled, rejected, Failure}
use txt.Browser.CryptoBlob.{Crypto}
use txt.Browser.ReadingRecords.{DocumentSecret, Store, Server, Left, is_version_conflict, chain_on}
use txt.Browser.ReadingWrites.{
  refresh_access_secret, retried, attempt_writes, with_version_conflict_retry,
}

-- A result that ends the attempts whichever are left: it is no version conflict.
abbrev pub IsFinal : {A : Type 0} → Settled A → Type 0
IsFinal (fulfilled a) = Unit
IsFinal (rejected e) = is_version_conflict e ≡ false

module _ (crypto : Crypto) (platform : Platform) (umk : Bytes) {S : Type 0} (server : Server S)
    (id : ℕ) (write : ℕ → Store → S → Left S (Unit {0})) where
  abbrev pub refresh_after : Left S (Unit {0}) → Left S DocumentSecret
  refresh_after left = refresh_access_secret crypto platform umk server id left.store left.server

  -- How the attempts go from a store and a server, with so many more after the present one.
  pub data IsAttempted : ℕ → Store → S → Left S (Unit {0}) → Type 0 where
    -- The attempt ends in something else than a version conflict.
    ended :
        (n : ℕ) (store : Store) (s : S)
        → IsFinal (write n store s).settled
        → IsAttempted n store s (write n store s)
    -- It is the last one.
    exhausted : (store : Store) (s : S) → IsAttempted 0 store s (write 0 store s)
    -- The reading state cannot be read again after a conflict.
    not_refreshed :
        (n : ℕ) (store : Store) (s : S) (e f : Failure)
        → (write (suc n) store s).settled ≡ rejected e
        → is_version_conflict e ≡ true
        → (refresh_after (write (suc n) store s)).settled ≡ rejected f
        → IsAttempted (suc n) store s (record {
          settled = rejected f;
          store = (refresh_after (write (suc n) store s)).store;
          server = (refresh_after (write (suc n) store s)).server;
        })
    -- The reading state is read again after a conflict, and the next attempt goes on from there.
    again :
        (n : ℕ) (store : Store) (s : S) (e : Failure) (secret : DocumentSecret)
        (left : Left S (Unit {0}))
        → (write (suc n) store s).settled ≡ rejected e
        → is_version_conflict e ≡ true
        → (refresh_after (write (suc n) store s)).settled ≡ fulfilled secret
        → IsAttempted n
            (refresh_after (write (suc n) store s)).store
            (refresh_after (write (suc n) store s)).server
            left
        → IsAttempted (suc n) store s left

  after_refresh :
      (n : ℕ) (store : Store) (s : S) (e : Failure) (result : Settled DocumentSecret)
      (next : Store → S → Left S (Unit {0}))
      → (write (suc n) store s).settled ≡ rejected e
      → is_version_conflict e ≡ true
      → (refresh_after (write (suc n) store s)).settled ≡ result
      → ((t : Store) (u : S) → IsAttempted n t u (next t u))
      → IsAttempted
          (suc n)
          store
          s
          (chain_on result (refresh_after (write (suc n) store s)) (λ _. next))
  after_refresh n store s e (rejected f) next conflict is_conflict failed h =
      not_refreshed n store s e f conflict is_conflict failed
  after_refresh n store s e (fulfilled secret) next conflict is_conflict read h =
      again n store s e secret _ conflict is_conflict read (h _ _)

  after_write :
      (n : ℕ) (store : Store) (s : S) (result : Settled (Unit {0}))
      (next : Store → S → Left S (Unit {0}))
      → (write (suc n) store s).settled ≡ result
      → ((t : Store) (u : S) → IsAttempted n t u (next t u))
      → IsAttempted
          (suc n)
          store
          s
          (retried crypto platform umk server result (write (suc n) store s) id (suc n) next)
  unfolding retried
  after_write n store s (fulfilled u) next e h = ended (suc n) store s (rw e tt)
  after_write n store s (rejected x) next e h = elim (Bool-cases (is_version_conflict x)) [
    | inl conflict ↦ rw conflict (after_refresh n store s x _ next e conflict refl h)
    | inr other ↦ rw other (ended (suc n) store s (rw e other))
  ]

  last_write :
      (left : Left S (Unit {0})) (result : Settled (Unit {0}))
      (next : Store → S → Left S (Unit {0}))
      → retried crypto platform umk server result left id zero next ≡ left
  unfolding retried
  last_write left (fulfilled u) next = refl
  last_write left (rejected e) next = refl

  attempt_writes-IsAttempted :
      (n : ℕ) (store : Store) (s : S)
      → IsAttempted n store s (attempt_writes crypto platform umk server id n write store s)
  unfolding attempt_writes
  attempt_writes-IsAttempted zero store s =
      rw (last_write (write zero store s) (write zero store s).settled (λ t u. write zero store s))
        (exhausted store s)
  attempt_writes-IsAttempted (suc n) store s =
      after_write n store s _ (attempt_writes crypto platform umk server id n write) refl
        (attempt_writes-IsAttempted n)

  -- Whatever the server does, a write with retries ends after at most three attempts. Each attempt but
  -- the last ended in a version conflict, after which the reading state was read again and the next
  -- attempt went on from what that left; where it could not be read, that failure is the result.
  pub with_version_conflict_retry-IsAttempted :
      (store : Store) (s : S)
      → IsAttempted 2 store s
          (with_version_conflict_retry crypto platform umk server id write store s)
  unfolding with_version_conflict_retry
  with_version_conflict_retry-IsAttempted store s = attempt_writes-IsAttempted 2 store s
