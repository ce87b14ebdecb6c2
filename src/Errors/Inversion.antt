-- ===== src/Errors/Inversion.antt =====
-- What a computation that gives a value has passed through.
use txt.Prelude.{◌≡◌, refl, Bool, true, false, Option, none, some}
use txt.Errors.{Error, Try, value, raise, require, or_raise, ◌>>=◌}

module _ {A B : Type 0} (v : B) where
  pub bind-value :
      (m : Try A) (k : A → Try B) → (m >>= k) ≡ value v → (a : A) × (m ≡ value a) × (k a ≡ value v)
  bind-value (value a) k h = (a, refl, h)
  bind-value (raise e) k h = absurd (raise-ne-value e h)
    where
      raise-ne-value : (e : Error) → Try.raise e ≡ value v → ⊥
      raise-ne-value e h = cc

  pub or_raise-value :
      (o : Option A) (e : Error) (k : A → Try B)
      → (or_raise o e >>= k) ≡ value v
      → (a : A) × (o ≡ some a) × (k a ≡ value v)
  or_raise-value none e k h = cc
  or_raise-value (some a) e k h = (a, refl, h)

module _ {B : Type 0} (v : B) where
  pub require-value :
      (test : Bool) (e : Error) (k : Unit {0} → Try B)
      → (require test e >>= k) ≡ value v
      → (test ≡ true) × (k tt ≡ value v)
  require-value true e k h = (refl, h)
  require-value false e k h = cc

pub require_last : (test : Bool) (e : Error) (u : Unit {0}) → require test e ≡ value u → test ≡ true
require_last true e u h = refl
require_last false e u h = cc

pub value-injective : {A : Type 0} (a b : A) → Try.value a ≡ Try.value b → a ≡ b
value-injective a b h = cc
