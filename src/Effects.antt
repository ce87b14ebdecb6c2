-- ===== src/Effects.antt =====
-- How a handler runs: a program over the world that the worker shares with other requests, the D1
-- database and the R2 bucket. A D1 statement or batch, and an R2 call, is one atomic step; between two
-- steps other requests may change the world. A program ends in a value or in an exception.
pub mod Runs
pub mod Reading
use txt.Prelude.{ℕ, List, [], ◌∷◌, Bool, true, false, Text, Option, none, some}
use txt.Errors.{Error}
use txt.Database.{Database}

pub record World : Type 0 where
  pub db : Database
  pub objects : List Text

-- What a statement gives: a result and the database after it, or a failure that changes nothing.
pub data Reply (A : Type 0) : Type 0 where
  ok : A → Database → Reply A
  failed : Error → Reply A

abbrev pub Statement : Type 0 → Type 0
Statement A = Database → Reply A

pub data Program (A : Type 0) : Type 0 where
  returns : A → Program A
  throws : Error → Program A
  atomically : (World → World) → (World → Program A) → Program A

infixl 5 ◌>>=◌ ◌>>◌
abbrev pub ◌>>=◌ : {A B : Type 0} → Program A → (A → Program B) → Program B
returns a >>= f = f a
throws e >>= f = throws e
atomically change next >>= f = atomically change (λ w. next w >>= f)

abbrev pub ◌>>◌ : {B : Type 0} → Program (Unit {0}) → Program B → Program B
m >> k = m >>= λ _. k

-- `try { m } catch (error) { handler(error) }`.
abbrev pub catch : {A : Type 0} → Program A → (Error → Program A) → Program A
catch (returns a) handler = returns a
catch (throws e) handler = handler e
catch (atomically change next) handler = atomically change (λ w. catch (next w) handler)

abbrev pub commit : {A : Type 0} → World → Reply A → World
commit w (ok a db) = record w { db = db }
commit w (failed e) = w

abbrev pub answer : {A : Type 0} → Reply A → Program A
answer (ok a db) = returns a
answer (failed e) = throws e

-- `await` of one D1 statement or batch.
abbrev pub query : {A : Type 0} → Statement A → Program A
query statement = atomically (λ w. commit w (statement w.db)) (λ w. answer (statement w.db))

-- One statement after another in a batch, which is rolled back as a whole.
abbrev pub then_statement : {A B : Type 0} → Reply A → (A → Statement B) → Reply B
then_statement (ok a db) next = next a db
then_statement (failed e) next = failed e

pub data Outcome (A : Type 0) : Type 0 where
  returned : A → Outcome A
  thrown : Error → Outcome A

-- The program alone: no other request between its steps.
abbrev pub run : {A : Type 0} → Program A → World → Outcome A × World
run (returns a) w = (returned a, w)
run (throws e) w = (thrown e, w)
run (atomically change next) w = run (next w) (change w)

-- The program among others: each entry is what they did to the world before a step.
abbrev pub run_among : {A : Type 0} → List (World → World) → Program A → World → Outcome A × World
run_among others (returns a) w = (returned a, w)
run_among others (throws e) w = (thrown e, w)
run_among [] (atomically change next) w = run_among [] (next w) (change w)
run_among (other ∷ others) (atomically change next) w =
    run_among others (next (other w)) (change (other w))

-- The statement succeeds, with a result and a database of which `P` holds.
abbrev pub Succeeds : {A : Type 0} → (A → Database → Type 0) → Reply A → Type 0
Succeeds P (ok a db) = P a db
Succeeds P (failed e) = ⊥

-- The program ends in a value, with a world of which `P` holds.
abbrev pub Returns : {A : Type 0} → (A → World → Type 0) → Outcome A × World → Type 0
Returns P (returned a, w) = P a w
Returns P (thrown e, w) = ⊥
