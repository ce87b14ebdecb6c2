-- ===== src/Errors.antt =====
-- The exceptions of the worker, each with its class, and worker/d1Errors.ts, which reads the
-- message of one that D1 raised.
pub mod Inversion
use txt.Prelude.{
  ℕ, ◌==◌, Bool, true, false, not, ◌&&◌, Option, none, some, List, [], ◌∷◌, ◌++◌, if◌then◌else◌,
  Text, codes, starts_with, includes, drop, length,
}

pub data Error : Type 0 where
  plain : Text → Error
  access_verification : Text → Error
  ticket_verification : Text → Error
  proof_verification : Text → Error
  proof_required : ℕ → Text → Error
  redemption : ℕ → Text → Error

unfoldable pub error_message : Error → Text
error_message (plain message) = message
error_message (access_verification message) = message
error_message (ticket_verification message) = message
error_message (proof_verification message) = message
error_message (proof_required status message) = message
error_message (redemption status message) = message

unfoldable pub is_foreign_key_violation : Error → Bool
unfolding error_message includes
is_foreign_key_violation error =
    includes (error_message error) (codes "FOREIGN KEY constraint failed")

-- The text before the next colon: the group `([^:]+)`.
before_colon : Text → Text
before_colon [] = []
before_colon (c ∷ cs) = let rest = before_colon cs in if c == b':' then [] else c ∷ rest

capture : Text → Option Text
capture [] = none
capture (c ∷ cs) = some (c ∷ cs)

-- `/UNIQUE constraint failed: ([^:]+)/.exec(message)`, as its group.
unique_columns : Text → Option Text
unfolding starts_with before_colon capture
unique_columns [] = none
unique_columns (c ∷ cs) =
    let label = codes "UNIQUE constraint failed: " in
    let later = unique_columns cs in
    if starts_with (c ∷ cs) label
    then elim (capture (before_colon (drop (length label) (c ∷ cs)))) [
      | some group ↦ some group
      | none ↦ later
    ]
    else later

names_column : Option Text → Option Text → Bool
unfolding includes
names_column none column = false
names_column (some group) none = true
names_column (some group) (some column) = includes group column

unfoldable pub is_unique_violation : Error → Option Text → Bool
unfolding error_message unique_columns names_column
is_unique_violation error column = names_column (unique_columns (error_message error)) column

-- The messages of SQLite's constraints, as D1 passes them on.
abbrev pub foreign_key_failed : Error
foreign_key_failed = plain (codes "D1_ERROR: FOREIGN KEY constraint failed: SQLITE_CONSTRAINT")

abbrev pub share_id_taken : Error
share_id_taken =
    plain (codes "D1_ERROR: UNIQUE constraint failed: shares.share_id_hash: SQLITE_CONSTRAINT")

abbrev pub object_path_taken : Error
object_path_taken =
    plain (codes "D1_ERROR: UNIQUE constraint failed: shares.object_path_hash: SQLITE_CONSTRAINT")

-- `RAISE(ABORT, ...)` of the triggers that check a key's purpose.
abbrev pub purpose_mismatch : Text → Error
purpose_mismatch table =
    plain (
      codes "D1_ERROR: key_store purpose mismatch for " ++ table ++ codes " row: SQLITE_CONSTRAINT")

-- What a function that may throw gives.
pub data Try (A : Type 0) : Type 0 where
  value : A → Try A
  raise : Error → Try A

infixl 5 ◌>>=◌ ◌>>◌
abbrev pub ◌>>=◌ : {A B : Type 0} → Try A → (A → Try B) → Try B
value a >>= f = f a
raise e >>= f = raise e

abbrev pub ◌>>◌ : {B : Type 0} → Try (Unit {0}) → Try B → Try B
m >> k = m >>= λ _. k

-- `if (!test) throw error`.
abbrev pub require : Bool → Error → Try (Unit {0})
require true e = value tt
require false e = raise e

abbrev pub or_raise : {A : Type 0} → Option A → Error → Try A
or_raise none e = raise e
or_raise (some a) e = value a
