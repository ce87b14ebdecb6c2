-- ===== src/Browser/LibraryModel.antt =====
-- ui/src/screens/Library/libraryModel.ts: the search, the order and the browsing of the loaded books.
-- Times are natural numbers of seconds. The comparison of texts by the locale, the lower case, the
-- removal of accents and the fuzzy search of fuse.js are the parameter `Texts`.
use txt.Prelude.{
  ℕ, suc, ◌+◌, ◌==◌, Bool, true, false, not, Option, none, some, List, [], ◌∷◌, ◌++◌, map, Text,
  same, includes, if◌then◌else◌, keep, any, take, length, ltb, sort_by,
}
use txt.Browser.Validation.{is_blank, blank}
pub mod Browsing

pub record LibraryBookmark : Type 0 where
  pub id : ℕ
  pub cfi : Text
  pub page_number : Option ℕ
  pub created_at : ℕ

pub record LibraryBook : Type 0 where
  pub txt_id : ℕ
  pub title : Text
  pub authors : List Text
  pub subjects : List Text
  pub publisher : Option Text
  pub last_accessed : ℕ
  pub bookmark_count : ℕ
  pub last_bookmarked : Option ℕ
  pub latest_bookmark_cfi : Option Text
  pub bookmarks : List LibraryBookmark

pub record Texts : Type 0 where
  -- `a.localeCompare(b) > 0`.
  pub locale_after : Text → Text → Bool
  pub to_lower_case : Text → Text
  -- `normalize("NFD")` with what \p{M} matches removed.
  pub without_marks : Text → Text
  pub fuse_search : List LibraryBook → Text → List LibraryBook

abbrev pub recent_list_limit : ℕ
recent_list_limit = 10

unfoldable pub is_accessed : LibraryBook → Bool
is_accessed book = ltb 0 book.last_accessed

unfoldable pub is_bookmarked : LibraryBook → Bool
is_bookmarked book = ltb 0 book.bookmark_count

unfoldable pub recently_accessed : List LibraryBook → List LibraryBook
unfolding is_accessed
recently_accessed books =
    take recent_list_limit
      (sort_by (λ a b. ltb a.last_accessed b.last_accessed) (keep is_accessed books))

or_zero : Option ℕ → ℕ
or_zero none = 0
or_zero (some n) = n

unfoldable pub recently_bookmarked : List LibraryBook → List LibraryBook
unfolding is_bookmarked or_zero
recently_bookmarked books = take recent_list_limit (
    sort_by (λ a b. ltb (or_zero a.last_bookmarked) (or_zero b.last_bookmarked))
      (keep is_bookmarked books))

unfoldable pub recent_access_count : List LibraryBook → ℕ
unfolding is_accessed
recent_access_count books = length (keep is_accessed books)

unfoldable pub bookmarked_book_count : List LibraryBook → ℕ
unfolding is_bookmarked
bookmarked_book_count books = length (keep is_bookmarked books)

pub data BrowseDimension : Type 0 where
  author : BrowseDimension
  subject : BrowseDimension
  publisher : BrowseDimension

published_by : Option Text → List Text
published_by none = []
published_by (some []) = []
published_by (some (c ∷ cs)) = (c ∷ cs) ∷ []

-- `[...new Set(values)]`: a value stays where it first stands.
unfoldable pub unique : List Text → List Text
unique [] = []
unique (x ∷ xs) = x ∷ keep (λ y. not (same x y)) (unique xs)

unfoldable pub raw_values : LibraryBook → BrowseDimension → List Text
unfolding published_by
raw_values book author = book.authors
raw_values book subject = book.subjects
raw_values book publisher = published_by book.publisher

unfoldable pub dimension_values : LibraryBook → BrowseDimension → List Text
unfolding raw_values unique
dimension_values book dimension =
    unique (keep (λ value. not (blank value)) (raw_values book dimension))

unfoldable pub book_has_dimension_value : LibraryBook → BrowseDimension → Text → Bool
unfolding dimension_values
book_has_dimension_value book dimension value = any (same value) (dimension_values book dimension)

pub record BrowseEntry : Type 0 where
  pub value : Text
  pub count : ℕ

-- `counts.set(value, (counts.get(value) ?? 0) + 1)`, in a map that keeps the order of insertion.
unfoldable pub count_value : Text → List BrowseEntry → List BrowseEntry
count_value v [] = (record { value = v; count = 1 }) ∷ []
count_value v (e ∷ es) =
    let later = e ∷ count_value v es in
    if same v e.value then (record e { count = e.count + 1 }) ∷ es else later

unfoldable pub count_values : List Text → List BrowseEntry → List BrowseEntry
unfolding count_value
count_values [] counts = counts
count_values (v ∷ vs) counts = count_values vs (count_value v counts)

unfoldable pub count_books :
    BrowseDimension → List LibraryBook → List BrowseEntry → List BrowseEntry
unfolding count_values
count_books dimension [] counts = counts
count_books dimension (b ∷ bs) counts =
    count_books dimension bs (count_values (dimension_values b dimension) counts)

module _ (texts : Texts) where
  unfoldable pub all_books_sorted : List LibraryBook → List LibraryBook
  all_books_sorted books = sort_by (λ a b. texts.locale_after a.title b.title) books

  unfoldable pub browse_entries : List LibraryBook → BrowseDimension → List BrowseEntry
  unfolding count_books
  browse_entries books dimension =
      sort_by (λ a b. texts.locale_after a.value b.value) (count_books dimension books [])

  unfoldable pub books_for_dimension_value :
      List LibraryBook → BrowseDimension → Text → List LibraryBook
  unfolding all_books_sorted book_has_dimension_value
  books_for_dimension_value books dimension value =
      all_books_sorted (keep (λ b. book_has_dimension_value b dimension value) books)
