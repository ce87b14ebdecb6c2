-- ===== src/Json.antt =====
-- The values that the worker reads from and writes to request and response bodies, with the type
-- tests of the handlers: `typeof`, `Number.isInteger` and the lookup of a field.
use txt.Prelude.{
  ℕ, ◌≡◌, sym, subst, Bool, true, false, Option, none, some, List, [], ◌∷◌, Text, String, ltb, leb,
  ◌==◌, if◌then◌else◌,
}
use text.Mathlib.Text.{◌==◌ as str_eq}

-- `negsuc n` is -(n + 1).
pub data ℤ : Type 0 where
  pos : ℕ → ℤ
  negsuc : ℕ → ℤ

-- A JavaScript number; a fraction is known by the integer below it. Integers are exact, as
-- JavaScript's are below 2 ^ 53.
pub data Number : Type 0 where
  int : ℤ → Number
  fraction : ℤ → Number
  infinity negative_infinity not_a_number : Number

mutual
  pub data Value : Type 0 where
    null : Value
    bool : Bool → Value
    num : Number → Value
    str : Text → Value
    arr : Items → Value
    obj : Fields → Value

  pub data Items : Type 0 where
    nil : Items
    cons : Value → Items → Items

  pub data Fields : Type 0 where
    end : Fields
    entry : String → Value → Fields → Fields

abbrev pub nat : ℕ → Value
nat n = num (int (pos n))

-- `record[key]`: `none` is `undefined`. `JSON.parse` leaves each key once.
unfoldable pub field : String → Fields → Option Value
field key end = none
field key (entry k v rest) = if str_eq k key then some v else field key rest

-- `typeof body === "object" && body !== null`; an array has none of the named fields.
unfoldable pub as_object : Option Value → Option Fields
as_object (some (obj fields)) = some fields
as_object (some (arr items)) = some end
as_object _ = none

-- `typeof value === "string"`.
unfoldable pub as_string : Option Value → Option Text
as_string (some (str text)) = some text
as_string _ = none

-- `typeof value === "number" && Number.isInteger(value)`.
unfoldable pub as_integer : Option Value → Option ℤ
as_integer (some (num (int z))) = some z
as_integer _ = none

unfoldable pub as_number : Option Value → Option Number
as_number (some (num n)) = some n
as_number _ = none

pub items_of : List Value → Items
items_of [] = nil
items_of (v ∷ vs) = cons v (items_of vs)

-- `row.id === value` for a column that holds a positive integer.
unfoldable pub eq_int : ℕ → ℤ → Bool
eq_int n (pos m) = n == m
eq_int n (negsuc m) = false

-- `Number.isSafeInteger`.
unfoldable pub safe_integer : Number → Option ℤ
safe_integer (int (pos n)) = if ltb n 9007199254740992 then some (pos n) else none
safe_integer (int (negsuc n)) = if ltb n 9007199254740991 then some (negsuc n) else none
safe_integer _ = none

-- `number > n`.
unfoldable pub exceeds : Number → ℕ → Bool
exceeds (int (pos m)) n = ltb n m
exceeds (fraction (pos m)) n = leb n m
exceeds infinity n = true
exceeds _ n = false

-- No field is a text where there is none.
pub end-no_string :
    (fields : Fields) (key : String) (text : Text)
    → end ≡ fields
    → as_string (field key fields) ≡ some text
    → ⊥
unfolding field as_string
end-no_string fields key text h e = cc (subst (λ f. as_string (field key f) ≡ some text) (sym h) e)
