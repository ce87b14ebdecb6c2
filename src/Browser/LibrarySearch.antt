-- ===== src/Browser/LibrarySearch.antt =====
-- The search of ui/src/screens/Library/libraryModel.ts: the query, the exact matches by rank, and the
-- fuzzy search where there are none.
use txt.Prelude.{
  ℕ, zero, suc, ◌==◌, Bool, true, not, ◌&&◌, Option, none, some, List, [], ◌∷◌, ◌++◌, map, Text,
  same, includes, if◌then◌else◌, keep,
}
use mathlib.Core.Option
use txt.Browser.Validation.{is_blank}
use txt.Browser.LibraryModel.{LibraryBook, Texts, all_books_sorted, is_accessed, is_bookmarked}
pub mod Activities

pub record ExactSearchRecord : Type 0 where
  pub book : LibraryBook
  pub fields : List Text
  pub all : Text

pub data Activity : Type 0 where
  access : Activity
  bookmark : Activity

pub record ParsedSearch : Type 0 where
  pub activity : Option Activity
  pub text : Text

unfoldable pub matches_activity : LibraryBook → Option Activity → Bool
unfolding is_accessed is_bookmarked
matches_activity book (some access) = is_accessed book
matches_activity book (some bookmark) = is_bookmarked book
matches_activity book none = true

-- What stands before the closing quote, where that is the end and no other quote stands before it.
quoted : Text → Option Text
quoted [] = none
quoted (c ∷ []) = if c == 39 then some [] else none
quoted (c ∷ d ∷ rest) =
    let later = quoted (d ∷ rest) in if c == 39 then none else Option.map (λ text. c ∷ text) later

-- What follows the colon: `\*` or a quoted text.
asked : Text → Option Text
unfolding quoted
asked (c ∷ rest) =
    if (c == 42) && same rest [] then some [] else if c == 39 then quoted rest else none
asked [] = none

-- The match of `/^([ab]):(?:\*|'([^']*)')$/`.
search_of : Text → Option ParsedSearch
unfolding asked
search_of (c ∷ colon ∷ rest) =
    if colon == 58
    then if c == 97
      then Option.map (λ text. record { activity = some access; text = text }) (asked rest)
      else if c == 98
      then Option.map (λ text. record { activity = some bookmark; text = text }) (asked rest)
      else none
    else none
search_of _ = none

or_text : Option ParsedSearch → Text → ParsedSearch
or_text (some parsed) normalized = parsed
or_text none normalized = record { activity = none; text = normalized }

drop_blank : Text → Text
drop_blank [] = []
drop_blank (c ∷ cs) = let rest = drop_blank cs in if is_blank c then rest else c ∷ cs

trim_end : Text → Text
trim_end [] = []
trim_end (c ∷ cs) = let rest = trim_end cs in if is_blank c && same rest [] then [] else c ∷ rest

-- `texts.join(" ")`.
join_spaced : List Text → Text
join_spaced [] = []
join_spaced (t ∷ []) = t
join_spaced (t ∷ u ∷ us) = t ++ 32 ∷ join_spaced (u ∷ us)

or_empty : Option Text → Text
or_empty none = []
or_empty (some t) = t

-- `findIndex`, or the last rank where no field includes the query.
rank_of : Text → List Text → ℕ
rank_of query [] = 0
rank_of query (f ∷ fs) = let later = rank_of query fs in if includes f query then 0 else suc later

-- `ranked[rank].push(book)`.
push_ranked : ℕ → LibraryBook → List (List LibraryBook) → List (List LibraryBook)
push_ranked rank book [] = []
push_ranked zero book (r ∷ rs) = (r ++ book ∷ []) ∷ rs
push_ranked (suc rank) book (r ∷ rs) = r ∷ push_ranked rank book rs

unfoldable pub rank_all :
    Text → List ExactSearchRecord → List (List LibraryBook) → List (List LibraryBook)
unfolding rank_of push_ranked
rank_all query [] ranked = ranked
rank_all query (r ∷ rs) ranked =
    rank_all query rs
      (if includes r.all query then push_ranked (rank_of query r.fields) r.book ranked else ranked)

unfoldable pub flat : List (List LibraryBook) → List LibraryBook
flat [] = []
flat (r ∷ rs) = r ++ flat rs

unfoldable pub exact_matches : List ExactSearchRecord → Text → List LibraryBook
unfolding rank_all flat
exact_matches records query = flat (rank_all query records ([] ∷ [] ∷ [] ∷ [] ∷ [] ∷ []))

module _ (texts : Texts) where
  normalize_search_text : Text → Text
  normalize_search_text value =
      map (λ c. if c == 0x111 then 100 else c) (texts.without_marks (texts.to_lower_case value))

  unfoldable pub parse_search : Text → ParsedSearch
  unfolding search_of or_text drop_blank trim_end
  parse_search query =
      let normalized = texts.to_lower_case (trim_end (drop_blank query)) in
      or_text (search_of normalized) normalized

  to_exact_search_record : LibraryBook → ExactSearchRecord
  unfolding join_spaced or_empty normalize_search_text
  to_exact_search_record book =
      let fields = map normalize_search_text (
        book.title
        ∷ join_spaced book.authors
        ∷ join_spaced book.subjects
        ∷ or_empty book.publisher
        ∷ []) in
      record { book = book; fields = fields; all = join_spaced fields }

  -- The exact matches, or the fuzzy ones where there is none.
  or_fuzzy : List LibraryBook → List LibraryBook → List LibraryBook
  or_fuzzy [] fuzzy = fuzzy
  or_fuzzy (b ∷ bs) fuzzy = b ∷ bs

  matches_of : List LibraryBook → List ExactSearchRecord → ParsedSearch → List LibraryBook
  unfolding or_fuzzy exact_matches normalize_search_text matches_activity
  matches_of sorted candidates parsed =
      if same parsed.text []
      then map (λ r. r.book) candidates
      else or_fuzzy (exact_matches candidates (normalize_search_text parsed.text))
          (keep (λ b. matches_activity b parsed.activity) (texts.fuse_search sorted parsed.text))

  -- `createBookSearch(books).search(query)`.
  unfoldable pub create_book_search : List LibraryBook → Text → List LibraryBook
  unfolding all_books_sorted to_exact_search_record matches_of parse_search matches_activity
  create_book_search books query =
      let sorted = all_books_sorted texts books in
      let parsed = parse_search query in
      matches_of sorted
        (keep (λ r. matches_activity r.book parsed.activity) (map to_exact_search_record sorted))
        parsed
