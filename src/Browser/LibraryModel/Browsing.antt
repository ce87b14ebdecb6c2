-- ===== src/Browser/LibraryModel/Browsing.antt =====
-- Browsing the library by a dimension: the number beside each value.
use txt.Prelude.{
  ℕ, ◌+◌, ◌≤◌, ◌≡◌, refl, Bool, false, not, List, [], ◌∷◌, Text, same, Bool-cases, inl, inr,
  same_sound, same_refl, if◌then◌else◌, if_cases, keep, any, length, All, sort_by-All,
  length-sort_by, arith,
}
use txt.Browser.LibraryModel.{
  LibraryBook, BrowseDimension, unique, dimension_values, book_has_dimension_value, BrowseEntry,
  count_value, count_values, count_books, Texts, all_books_sorted, browse_entries,
  books_for_dimension_value,
}

abbrev one_if : Bool → ℕ
one_if b = if b then 1 else 0

-- How often a value stands in a list.
unfoldable occurrences : Text → List Text → ℕ
occurrences w [] = 0
occurrences w (x ∷ xs) = one_if (same w x) + occurrences w xs

-- What the map has counted of a value.
unfoldable counted : Text → List BrowseEntry → ℕ
counted w [] = 0
counted w (e ∷ es) = (if same w e.value then e.count else 0) + counted w es

-- No value has two entries.
abbrev IsMap : List BrowseEntry → Type 0
IsMap [] = Unit
IsMap (e ∷ es) = All (λ o. same o.value e.value ≡ false) es × IsMap es

count_value-counted :
    (w v : Text) (es : List BrowseEntry)
    → counted w (count_value v es) ≡ one_if (same w v) + counted w es
unfolding counted count_value
count_value-counted w v [] = refl
count_value-counted w v (e ∷ es) =
    if_cases
      (λ (os : List BrowseEntry).
        counted w os ≡ one_if (same w v) + ((if same w e.value then e.count else 0) + counted w es))
      (same v e.value)
      (λ h. rw (same_sound v e.value h) (
        if_cases
          (λ n.
            n + counted w es
            ≡ one_if (same w e.value) + ((if same w e.value then e.count else 0) + counted w es))
          (same w e.value) (λ k. rw k (omega arith)) (λ k. rw k (omega arith))))
      (λ _. omega (arith, count_value-counted w v es))

count_value-All :
    (P : Text → Type 0) (v : Text) (es : List BrowseEntry)
    → P v
    → All (λ e. P e.value) es
    → All (λ e. P e.value) (count_value v es)
unfolding count_value
count_value-All P v [] p h = (p, tt)
count_value-All P v (e ∷ es) p h =
    if_cases (All (λ (o : BrowseEntry). P o.value)) (same v e.value) (λ _. h)
      (λ _. (h.0, count_value-All P v es p h.1))

count_value-IsMap : (v : Text) (es : List BrowseEntry) → IsMap es → IsMap (count_value v es)
unfolding count_value
count_value-IsMap v [] h = (tt, tt)
count_value-IsMap v (e ∷ es) h =
    if_cases IsMap (same v e.value) (λ _. h)
      (λ other.
        (count_value-All (λ o. same o e.value ≡ false) v es other h.0, count_value-IsMap v es h.1))

count_values-counted :
    (w : Text) (vs : List Text) (es : List BrowseEntry)
    → counted w (count_values vs es) ≡ occurrences w vs + counted w es
unfolding count_values occurrences
count_values-counted w [] es = omega arith
count_values-counted w (v ∷ vs) es =
    omega (arith, count_values-counted w vs (count_value v es), count_value-counted w v es)

count_values-IsMap :
    (vs : List Text) (es : List BrowseEntry) → IsMap es → IsMap (count_values vs es)
unfolding count_values
count_values-IsMap [] es h = h
count_values-IsMap (v ∷ vs) es h =
    count_values-IsMap vs (count_value v es) (count_value-IsMap v es h)

occurrences-keep_other :
    (x : Text) (ys : List Text) → occurrences x (keep (λ y. not (same x y)) ys) ≡ 0
unfolding occurrences
occurrences-keep_other x [] = refl
occurrences-keep_other x (y ∷ ys) =
    let rest = occurrences-keep_other x ys in
    elim (Bool-cases (same x y)) [ inl h ↦ rw h rest | inr h ↦ rw h (rw h (omega (arith, rest))) ]

occurrences-keep :
    (w : Text) (p : Text → Bool) (ys : List Text) → occurrences w (keep p ys) ≤ occurrences w ys
unfolding occurrences
occurrences-keep w p [] = omega arith
occurrences-keep w p (y ∷ ys) =
    let rest = occurrences-keep w p ys in
    if_cases (λ (zs : List Text). occurrences w zs ≤ one_if (same w y) + occurrences w ys) (p y)
      (λ _. omega (arith, rest)) (λ _. omega (arith, rest))

occurrences-unique : (w : Text) (xs : List Text) → occurrences w (unique xs) ≤ 1
unfolding unique occurrences
occurrences-unique w [] = omega arith
occurrences-unique w (x ∷ xs) =
    if_cases (λ n. n + occurrences w (keep (λ y. not (same x y)) (unique xs)) ≤ 1) (same w x)
      (λ h. rw (same_sound w x h) (omega (arith, occurrences-keep_other x (unique xs))))
      (λ _.
        omega
          (arith, occurrences-keep w (λ y. not (same x y)) (unique xs), occurrences-unique w xs))

any-occurrences :
    (w : Text) (xs : List Text) → occurrences w xs ≤ 1 → occurrences w xs ≡ one_if (any (same w) xs)
unfolding occurrences
any-occurrences w [] h = refl
any-occurrences w (x ∷ xs) h = let rest = any-occurrences w xs in ground arith

occurrences-dimension_values :
    (w : Text) (book : LibraryBook) (dimension : BrowseDimension)
    → occurrences w (dimension_values book dimension)
      ≡ one_if (book_has_dimension_value book dimension w)
unfolding book_has_dimension_value dimension_values
occurrences-dimension_values w book dimension =
    any-occurrences w (dimension_values book dimension) (occurrences-unique w _)

length-keep :
    (p : LibraryBook → Bool) (b : LibraryBook) (bs : List LibraryBook)
    → length (keep p (b ∷ bs)) ≡ one_if (p b) + length (keep p bs)
length-keep p b bs =
    if_cases (λ (zs : List LibraryBook). length zs ≡ one_if (p b) + length (keep p bs)) (p b)
      (λ h. rw h (omega arith)) (λ h. rw h (omega arith))

count_books-counted :
    (w : Text) (dimension : BrowseDimension) (books : List LibraryBook) (es : List BrowseEntry)
    → counted w (count_books dimension books es)
      ≡ length (keep (λ b. book_has_dimension_value b dimension w) books) + counted w es
unfolding count_books
count_books-counted w dimension [] es = omega arith
count_books-counted w dimension (b ∷ bs) es = omega (
  arith,
  count_books-counted w dimension bs (count_values (dimension_values b dimension) es),
  count_values-counted w (dimension_values b dimension) es,
  occurrences-dimension_values w b dimension,
  length-keep (λ b. book_has_dimension_value b dimension w) b bs,
)

count_books-IsMap :
    (dimension : BrowseDimension) (books : List LibraryBook) (es : List BrowseEntry)
    → IsMap es
    → IsMap (count_books dimension books es)
unfolding count_books
count_books-IsMap dimension [] es h = h
count_books-IsMap dimension (b ∷ bs) es h =
    count_books-IsMap dimension bs _ (count_values-IsMap (dimension_values b dimension) es h)

-- An entry of a map with one more entry before it, of another value.
others_counted :
    (e : BrowseEntry) (others es : List BrowseEntry)
    → All (λ o. same o.value e.value ≡ false) others
    → All (λ o. o.count ≡ counted o.value es) others
    → All (λ o. o.count ≡ counted o.value (e ∷ es)) others
unfolding counted
others_counted e [] es h k = tt
others_counted e (o ∷ os) es h k = (rw h.0 (omega (arith, k.0)), others_counted e os es h.1 k.1)

not_counted :
    (e : BrowseEntry) (es : List BrowseEntry)
    → All (λ o. same o.value e.value ≡ false) es
    → counted e.value es ≡ 0
unfolding counted
not_counted e [] h = refl
not_counted e (o ∷ os) h =
    if_cases (λ n. n + counted e.value os ≡ 0) (same e.value o.value)
      (λ k. cc (h.0, same_refl o.value, same_sound e.value o.value k))
      (λ _. omega (arith, not_counted e os h.1))

IsMap-counted : (es : List BrowseEntry) → IsMap es → All (λ e. e.count ≡ counted e.value es) es
unfolding counted
IsMap-counted [] h = tt
IsMap-counted (e ∷ es) h = (
  rw (same_refl e.value) (omega (arith, not_counted e es h.0)),
  others_counted e es es h.0 (IsMap-counted es h.1),
)

All-map :
    (P Q : BrowseEntry → Type 0) (es : List BrowseEntry)
    → ((e : BrowseEntry) → P e → Q e)
    → All P es
    → All Q es
All-map P Q [] f h = tt
All-map P Q (e ∷ es) f h = (f e h.0, All-map P Q es f h.1)

-- The number beside each value that is browsed is the number of books that choosing the value shows.
pub browse_entries-count :
    (texts : Texts) (books : List LibraryBook) (dimension : BrowseDimension)
    → All
        (λ e. e.count ≡ length (books_for_dimension_value texts books dimension e.value))
        (browse_entries texts books dimension)
unfolding browse_entries books_for_dimension_value all_books_sorted counted
browse_entries-count texts books dimension = sort_by-All _ _ (count_books dimension books []) (
    All-map _ _ (count_books dimension books [])
      (λ e h. omega (
        arith,
        h,
        count_books-counted e.value dimension books [],
        length-sort_by (λ a b. texts.locale_after a.title b.title)
            (keep (λ b. book_has_dimension_value b dimension e.value) books),
      ))
      (IsMap-counted _ (count_books-IsMap dimension books [] tt)))
