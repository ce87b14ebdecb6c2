-- ===== src/Http/Reading.antt =====
-- worker/requireVar.ts: reading the configuration changes nothing.
use txt.Errors.{Error}
use txt.Effects.{returns, throws}
use txt.Prelude.{
  ◌≡◌, refl, ◌⊎◌, Option, none, some, Text, [], ◌∷◌, Bool-cases, inl, inr, codes, starts_with,
}
use txt.Effects.Reading.{IsReadOnly}
use txt.Http.{require_var, configured, not_configured}

configured-IsReadOnly : (setting name : Text) → IsReadOnly (configured setting name)
unfolding configured
configured-IsReadOnly [] name = tt
configured-IsReadOnly (c ∷ cs) name =
    elim (Bool-cases (starts_with (c ∷ cs) (codes "replace-me-"))) [
      | inl e ↦ rw e tt
      | inr e ↦ rw e tt
    ]

pub require_var-IsReadOnly :
    (setting : Option Text) (name : Text) → IsReadOnly (require_var setting name)
unfolding require_var
require_var-IsReadOnly none name = tt
require_var-IsReadOnly (some setting) name = configured-IsReadOnly setting name

-- A variable is there, or its absence is an exception.
pub require_var-cases :
    (setting : Option Text) (name : Text)
    → ((text : Text) × (require_var setting name ≡ returns text))
      ⊎ ((e : Error) × (require_var setting name ≡ throws e))
unfolding require_var configured
require_var-cases none name = inr (_, refl)
require_var-cases (some []) name = inr (_, refl)
require_var-cases (some (c ∷ cs)) name =
    elim (Bool-cases (starts_with (c ∷ cs) (codes "replace-me-"))) [
      | inl e ↦ inr (not_configured name, rw e refl)
      | inr e ↦ inl (c ∷ cs, rw e refl)
    ]
