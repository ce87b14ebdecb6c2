-- ===== src/Browser/SignedRequest/Lookups.antt =====
-- The fields of a body after others are set.
use txt.Prelude.{
  String, ◌≡◌, refl, sym, subst, ap, inl, inr, false, Bool-cases, some, if◌then◌else◌,
}
use text.Mathlib.Text.{◌==◌ as str_eq}
use text.Mathlib.TextPositions.{eq_refl}
use text.Mathlib.TextEquality.{eq_iff}
use txt.Json.{Value, Fields, end, entry, field}
use txt.Browser.SignedRequest.{with_field}

-- The field that is set.
pub field-with_field :
    (key : String) (v : Value) (fields : Fields) → field key (with_field key v fields) ≡ some v
unfolding field with_field
field-with_field key v end = rw (eq_refl key) refl
field-with_field key v (entry k w rest) = elim (Bool-cases (str_eq k key)) [
  | inl e ↦ rw (e, e) refl
  | inr e ↦ rw (e, e) (field-with_field key v rest)
]

-- Another field stays as it was.
pub field-with_field-other :
    (key other : String) (v : Value) (fields : Fields)
    → str_eq key other ≡ false
    → field other (with_field key v fields) ≡ field other fields
unfolding field with_field
field-with_field-other key other v end ne = rw ne refl
field-with_field-other key other v (entry k w rest) ne = elim (Bool-cases (str_eq k key)) [
  | inl e ↦
      let differs = subst (λ (s : String). str_eq s other ≡ false) (sym ((eq_iff k key).0 e)) ne in
      rw (e, differs) refl
  | inr e ↦
      rw e (
        ap (λ o. if str_eq k other then some w else o) (field-with_field-other key other v rest ne))
]
