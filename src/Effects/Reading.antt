-- ===== src/Effects/Reading.antt =====
-- Programs of which no step changes the world.
use txt.Prelude.{◌≡◌, refl, ◌∙◌}
use txt.Errors.{Error}
use txt.Effects.{World, Program, returns, throws, atomically, ◌>>=◌, catch, run}

abbrev pub IsReadOnly : {A : Type 0} → Program A → Type 0
IsReadOnly (returns a) = Unit
IsReadOnly (throws e) = Unit
IsReadOnly (atomically change next) =
    ((w : World) → change w ≡ w) × ((w : World) → IsReadOnly (next w))

pub bind-IsReadOnly :
    {A B : Type 0} (m : Program A) (k : A → Program B)
    → IsReadOnly m
    → ((a : A) → IsReadOnly (k a))
    → IsReadOnly (m >>= k)
bind-IsReadOnly (returns a) k h hk = hk a
bind-IsReadOnly (throws e) k h hk = tt
bind-IsReadOnly (atomically change next) k h hk = (h.0, λ w. bind-IsReadOnly (next w) k (h.1 w) hk)

pub catch-IsReadOnly :
    {A : Type 0} (m : Program A) (handler : Error → Program A)
    → IsReadOnly m
    → ((e : Error) → IsReadOnly (handler e))
    → IsReadOnly (catch m handler)
catch-IsReadOnly (returns a) handler h hk = tt
catch-IsReadOnly (throws e) handler h hk = hk e
catch-IsReadOnly (atomically change next) handler h hk =
    (h.0, λ w. catch-IsReadOnly (next w) handler (h.1 w) hk)

-- A read-only program alone leaves the world as it was.
pub run-IsReadOnly : {A : Type 0} (m : Program A) (w : World) → IsReadOnly m → (run m w).1 ≡ w
run-IsReadOnly (returns a) w h = refl
run-IsReadOnly (throws e) w h = refl
run-IsReadOnly (atomically change next) w h = run-IsReadOnly (next w) (change w) (h.1 w) ∙ h.0 w
