-- ===== src/Tests/Library.antt =====
-- Tests of the browsing and the search of the library.
use txt.Prelude.{
  ◌<◌, inr, keep, ltb, arith, ◌≡◌, refl, false, none, List, [], ◌∷◌, codes, length, All, same,
  sort_by, includes,
}
use txt.Browser.Validation.{is_blank, blank}
use txt.Browser.LibraryModel.{
  all_books_sorted, LibraryBook, Texts, author, browse_entries, books_for_dimension_value,
  dimension_values, recently_accessed,
}
use txt.Browser.LibraryModel.Browsing.{browse_entries-count}
use txt.Browser.LibrarySearch.{access, create_book_search}
use txt.Browser.LibrarySearch.Activities.{create_book_search-activity}

-- Plain texts: every comparison finds the order right, and the fuzzy search finds everything.
abbrev texts : Texts
texts = record {
  locale_after = λ a b. false;
  to_lower_case = λ t. t;
  without_marks = λ t. t;
  fuse_search = λ books query. books;
}

abbrev emma : LibraryBook
emma = record {
  txt_id = 1;
  title = codes "emma";
  authors = codes "jane austen" ∷ codes " " ∷ codes "jane austen" ∷ [];
  subjects = [];
  publisher = none;
  last_accessed = 1000;
  bookmark_count = 0;
  last_bookmarked = none;
  latest_bookmark_cfi = none;
  bookmarks = [];
}

abbrev persuasion : LibraryBook
persuasion = record emma {
  txt_id = 2;
  title = codes "persuasion";
  authors = codes "jane austen" ∷ [];
  last_accessed = 0;
}

abbrev books : List LibraryBook
books = emma ∷ persuasion ∷ []

-- A name that stands twice in a book is counted once for it, and a blank one not at all.
counted_once :
    browse_entries texts books author ≡ (record { value = codes "jane austen"; count = 2 }) ∷ []
unfolding browse_entries sort_by dimension_values blank same
counted_once = refl

latest : recently_accessed books ≡ emma ∷ []
unfolding recently_accessed sort_by
latest = refl

found_by_activity : create_book_search texts books (codes " a:'persua' ") ≡ emma ∷ []
unfolding create_book_search same is_blank sort_by includes
found_by_activity = refl

found_exactly : create_book_search texts books (codes "persua") ≡ persuasion ∷ []
unfolding create_book_search same is_blank sort_by includes
found_exactly = refl

browse_entries-count_example :
    All
      (λ e. e.count ≡ length (books_for_dimension_value texts books author e.value))
      (browse_entries texts books author)
browse_entries-count_example = browse_entries-count texts books author

create_book_search-activity_example :
    (create_book_search texts books (codes "a:*")
      ≡ keep (λ b. ltb 0 b.last_accessed) (all_books_sorted texts books))
    × All (λ b. 0 < b.last_accessed) (create_book_search texts books (codes "a:'em'"))
create_book_search-activity_example =
    create_book_search-activity texts (λ text h. refl) books access (codes "em")
      (
        (inr (omega arith, omega arith), omega arith),
        ((inr (omega arith, omega arith), omega arith), tt),
      )
