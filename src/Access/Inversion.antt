-- ===== src/Access/Inversion.antt =====
-- worker/access.ts: what the tests of a token's header, of the keys and of the claims show.
use txt.Prelude.{
  false, String, refl, ◌⊎◌, inl, inr, Bool-cases, ℕ, ◌≡◌, subst, ap, Option, none, some, List, [],
  ◌∷◌, Text, Bytes, true, same_sound, arith,
}
use txt.Base64.{base64_url_decode}
use txt.Json.{
  Number, as_number, exceeds, end-no_string, Value, obj, arr, str, Items, nil, cons, Fields, field,
  as_string,
}
use txt.Errors.{Error, or_raise, value}
use txt.Errors.Inversion.{bind-value, value-injective}
use txt.Platform.{Platform}
use txt.Ticket.{three_parts, is_unexpired}
use txt.Access.{
  items_include, jwks_keys, kid_of_header, kid_of, has_kid, find_jwk, truthy, same_value,
  properties, names_audience, text_is,
}

pub text_is-true :
    (expected : Text) (text : Option Text) → text_is expected text ≡ true → text ≡ some expected
unfolding text_is
text_is-true expected none h = cc
text_is-true expected (some text) h = ground (arith, same_sound text expected h)

pub three_parts-some :
    (parts : List Text) (a b c : Text) → three_parts parts ≡ some (a, b, c) → parts ≡ a ∷ b ∷ c ∷ []
unfolding three_parts
three_parts-some parts a b c h = ground arith

-- A segment of a token is the URL-safe base64 of a JSON object.
abbrev pub IsSegment : Platform → Text → Fields → Type 0
IsSegment platform segment fields =
    (bytes : Bytes) × (base64_url_decode segment ≡ some bytes)
    × (platform.json_parse (platform.text_decode bytes) ≡ some (obj fields))

-- A value stands among the items.
abbrev pub IsAmong : Value → Items → Type 0
IsAmong v nil = ⊥
IsAmong v (cons w ws) = (w ≡ v) ⊎ IsAmong v ws

pub as_string-some :
    (v : Option Value) (text : Text) → as_string v ≡ some text → v ≡ some (str text)
unfolding as_string
as_string-some none text h = cc
as_string-some (some (str t)) text h = cc
as_string-some (some Value.null) text h = cc
as_string-some (some (Value.bool b)) text h = cc
as_string-some (some (Value.num n)) text h = cc
as_string-some (some (arr items)) text h = cc
as_string-some (some (obj fields)) text h = cc

items_include-IsAmong :
    (text : Text) (items : Items) → items_include text items ≡ true → IsAmong (str text) items
unfolding items_include
items_include-IsAmong text nil h = cc
items_include-IsAmong text (cons v vs) h = elim (Bool-cases (text_is text (as_string (some v)))) [
  | inl e ↦
      let same : some v ≡ some (str text) = as_string-some _ _ (text_is-true text _ e) in
      inl (cc same)
  | inr e ↦ inr (items_include-IsAmong text vs (rw e at h))
]

pub names_audience-true :
    (aud : Option Value) (audience : Text)
    → names_audience aud audience ≡ true
    → (aud ≡ some (str audience))
      ⊎ (audiences : Items) × (aud ≡ some (arr audiences)) × IsAmong (str audience) audiences
unfolding names_audience
names_audience-true (some (arr audiences)) audience h =
    inr (audiences, refl, items_include-IsAmong audience audiences h)
names_audience-true none audience h = inl (as_string-some _ _ (text_is-true audience _ h))
names_audience-true (some (str t)) audience h = inl (as_string-some _ _ (text_is-true audience _ h))
names_audience-true (some Value.null) audience h =
    inl (as_string-some _ _ (text_is-true audience _ h))
names_audience-true (some (Value.bool b)) audience h =
    inl (as_string-some _ _ (text_is-true audience _ h))
names_audience-true (some (Value.num n)) audience h =
    inl (as_string-some _ _ (text_is-true audience _ h))
names_audience-true (some (obj fields)) audience h =
    inl (as_string-some _ _ (text_is-true audience _ h))

expiring_claim :
    (exp : Option Number) (now : ℕ)
    → (elim exp [ none ↦ false | some e ↦ exceeds e now ]) ≡ true
    → (e : Number) × (exp ≡ some e) × (exceeds e now ≡ true)
expiring_claim none now h = cc
expiring_claim (some e) now h = (e, refl, h)

pub is_unexpired-true :
    (claims : Fields) (now : ℕ)
    → is_unexpired claims now ≡ true
    → (exp : Number) × (as_number (field "exp" claims) ≡ some exp) × (exceeds exp now ≡ true)
unfolding is_unexpired
is_unexpired-true claims now h = expiring_claim (as_number (field "exp" claims)) now h

pub jwks_keys-some :
    (v : Value) (keys : Items)
    → jwks_keys v ≡ some keys
    → (fields : Fields) × (v ≡ obj fields) × (field "keys" fields ≡ some (arr keys))
unfolding jwks_keys
jwks_keys-some (obj fields) keys h = (fields, refl, ground (arith, h))
jwks_keys-some Value.null keys h = cc
jwks_keys-some (Value.bool b) keys h = cc
jwks_keys-some (Value.num n) keys h = cc
jwks_keys-some (str t) keys h = cc
jwks_keys-some (arr items) keys h = cc

pub or_raise-last :
    {A : Type 0} (o : Option A) (e : Error) (a : A) → or_raise o e ≡ value a → o ≡ some a
or_raise-last none e a h = cc
or_raise-last (some b) e a h = cc

pub kid_of_header-some :
    (o : Option Value) (kid : Value)
    → kid_of_header o ≡ some kid
    → (o ≡ some kid) × (truthy kid ≡ true)
unfolding kid_of_header
kid_of_header-some none kid h = cc
kid_of_header-some (some v) kid h = ground (arith, h)

-- The kid of a key that names it.
abbrev pub IsNamed : Value → Value → Type 0
IsNamed kid key =
    (fields : Fields) × (k : Value) × (key ≡ obj fields)
    × (field "kid" fields ≡ some k)
    × (same_value k kid ≡ true)

has_kid-IsNamed :
    (kid key : Value) (k : Option Value)
    → kid_of key ≡ value k
    → has_kid kid k ≡ true
    → IsNamed kid key
unfolding has_kid kid_of
has_kid-IsNamed kid key none e h = cc
has_kid-IsNamed kid (obj fields) (some k) e h = (fields, k, refl, value-injective _ _ e, h)
has_kid-IsNamed kid Value.null (some k) e h = cc
has_kid-IsNamed kid (Value.bool b) (some k) e h = cc
has_kid-IsNamed kid (Value.num n) (some k) e h = cc
has_kid-IsNamed kid (str t) (some k) e h = cc
has_kid-IsNamed kid (arr items) (some k) e h = cc

pub find_jwk-some :
    (kid key : Value) (keys : Items)
    → find_jwk kid keys ≡ value (some key)
    → IsAmong key keys × IsNamed kid key
unfolding find_jwk
find_jwk-some kid key nil h = cc (value-injective _ _ h)
find_jwk-some kid key (cons v vs) h =
    let (k, read, h1) = bind-value (some key) (kid_of v) _ h in
    elim (Bool-cases (has_kid kid k)) [
      | inl e ↦
          let same : v ≡ key = cc (value-injective (some v) (some key) (rw e at h1)) in
          (inl same, subst (IsNamed kid) same (has_kid-IsNamed kid v k read e))
      | inr e ↦ let (among, named) = find_jwk-some kid key vs (rw e at h1) in (inr among, named)
    ]

pub properties-some :
    (v : Value) (fields : Fields) (key : String) (text : Text)
    → properties v ≡ value fields
    → as_string (field key fields) ≡ some text
    → v ≡ obj fields
unfolding properties
properties-some (obj f) fields key text h e = ap obj (value-injective _ _ h)
properties-some Value.null fields key text h e = cc
properties-some (Value.bool b) fields key text h e =
    absurd (end-no_string fields key text (value-injective _ _ h) e)
properties-some (Value.num n) fields key text h e =
    absurd (end-no_string fields key text (value-injective _ _ h) e)
properties-some (str t) fields key text h e =
    absurd (end-no_string fields key text (value-injective _ _ h) e)
properties-some (arr items) fields key text h e =
    absurd (end-no_string fields key text (value-injective _ _ h) e)
