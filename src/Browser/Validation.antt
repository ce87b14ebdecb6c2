-- ===== src/Browser/Validation.antt =====
-- ui/src/util/validation.ts and base64.ts, and the field readers of ui/src/data/apiClient.ts.
use txt.Prelude.{
  String, ℕ, ◌-◌, ◌%◌, Bool, not, ◌&&◌, ◌||◌, Option, none, some, List, [], ◌∷◌, ◌++◌, any, Text,
  Bytes, codes, leb, ◌==◌, length, replicate, if◌then◌else◌,
}
use txt.Base64.{atob, btoa}
use txt.Json.{Number, Value, null, str, num, arr, obj, Fields, Items, nil, cons, field}
use txt.Browser.Failures.{Settled, fulfilled, rejected, error, ◌>>=◌}

-- The white space and the line ends that `trim` removes.
unfoldable pub is_blank : ℕ → Bool
is_blank c =
    (leb 9 c && leb c 13)
    || c == 32
    || c == 160
    || c == 0x1680
    || (leb 0x2000 c && leb c 0x200A)
    || c == 0x2028
    || c == 0x2029
    || c == 0x202F
    || c == 0x205F
    || c == 0x3000
    || c == 0xFEFF

-- `value.trim() === ""`.
unfoldable pub blank : Text → Bool
unfolding is_blank
blank text = not (any (λ c. not (is_blank c)) text)

unfoldable pub object_record : Value → Text → Settled Fields
object_record (obj fields) label = fulfilled fields
object_record _ label = rejected (error (label ++ codes " must be an object"))

missing : {A : Type 0} → Text → Settled A
missing label = rejected (error (label ++ codes " is missing a field"))

-- A field, where an absent one is `undefined`.
unfoldable pub object_field : Fields → String → Text → Settled Fields
unfolding object_record
object_field fields key label = elim (field key fields) [
  | none ↦ object_record null label
  | some v ↦ object_record v label
]

unfoldable pub string_of : Option Value → Text → Settled Text
unfolding blank missing
string_of (some (str text)) label = if blank text then missing label else fulfilled text
string_of _ label = missing label

unfoldable pub string_field : Fields → String → Text → Settled Text
unfolding string_of
string_field fields key label = string_of (field key fields) label

unfoldable pub number_in : Option Value → Text → Settled Number
unfolding missing
number_in (some (num n)) label = fulfilled n
number_in _ label = missing label

unfoldable pub number_field : Fields → String → Text → Settled Number
unfolding number_in
number_field fields key label = number_in (field key fields) label

strings_of : Items → Option (List Text)
strings_of nil = some []
strings_of (cons (str text) items) = elim (strings_of items) [
  | none ↦ none
  | some texts ↦ some (text ∷ texts)
]
strings_of (cons _ items) = none

invalid : {A : Type 0} → Option A → Text → Settled A
invalid none label = rejected (error (label ++ codes " has an invalid field"))
invalid (some a) label = fulfilled a

string_array_in : Option Value → Text → Settled (List Text)
unfolding strings_of invalid
string_array_in none label = fulfilled []
string_array_in (some null) label = fulfilled []
string_array_in (some (arr items)) label = invalid (strings_of items) label
string_array_in (some _) label = invalid none label

unfoldable pub string_array_field : Fields → String → Text → Settled (List Text)
unfolding string_array_in
string_array_field fields key label = string_array_in (field key fields) label

unfoldable pub decoded : Option Bytes → Settled Bytes
decoded none = rejected (error (codes "InvalidCharacterError"))
decoded (some bytes) = fulfilled bytes

-- `fromBase64`: padded, then decoded.
unfoldable pub padded : Text → Text
padded text = text ++ replicate ((4 - length text % 4) % 4) b'='

unfoldable pub from_base64 : Text → Settled Bytes
unfolding atob decoded padded
from_base64 text = decoded (atob (padded text))

unfoldable pub to_base64 : Bytes → Text
unfolding btoa
to_base64 bytes = btoa bytes

unfoldable pub bytes_field : Fields → String → Text → Settled Bytes
unfolding string_field from_base64
bytes_field fields key label = string_field fields key label >>= from_base64

unfoldable pub nullable : Option Value → Settled Bytes → Settled (Option Bytes)
nullable (some null) bytes = fulfilled none
nullable _ bytes = bytes >>= λ b. fulfilled (some b)

unfoldable pub nullable_bytes_field : Fields → String → Text → Settled (Option Bytes)
unfolding nullable bytes_field
nullable_bytes_field fields key label = nullable (field key fields) (bytes_field fields key label)
