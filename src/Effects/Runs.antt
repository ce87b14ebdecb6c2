-- ===== src/Effects/Runs.antt =====
-- What holds of every program.
use txt.Prelude.{◌≡◌, refl, []}
use txt.Effects.{
  World, Program, returns, throws, atomically, run, run_among, Outcome, returned, thrown, Returns,
  Reply, ok, failed, Succeeds,
}
use txt.Database.{Database}

-- With nobody else about, a program among others runs as it does alone.
pub run_among-nil : {A : Type 0} (m : Program A) (w : World) → run_among [] m w ≡ run m w
run_among-nil (returns a) w = refl
run_among-nil (throws e) w = refl
run_among-nil (atomically change next) w = run_among-nil (next w) (change w)

-- What follows from what holds of a result, and of a statement's.
pub Returns-map :
    {A : Type 0} (P Q : A → World → Type 0) (o : Outcome A × World)
    → ((a : A) (w : World) → P a w → Q a w)
    → Returns P o
    → Returns Q o
Returns-map P Q (returned a, w) f h = f a w h
Returns-map P Q (thrown e, w) f h = absurd h

pub Succeeds-map :
    {A : Type 0} (P Q : A → Database → Type 0) (r : Reply A)
    → ((a : A) (db : Database) → P a db → Q a db)
    → Succeeds P r
    → Succeeds Q r
Succeeds-map P Q (ok a db) f h = f a db h
Succeeds-map P Q (failed e) f h = absurd h
