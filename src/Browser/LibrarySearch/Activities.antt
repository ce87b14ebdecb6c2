-- ===== src/Browser/LibrarySearch/Activities.antt =====
-- What a search for an activity finds.
use txt.Prelude.{
  ◌++◌, subst, ◌<◌, ◌≢◌, ◌⊎◌, ◌==◌, inl, inr, refl, false, Bool-cases, codes, ltb, some, arith, ◌≡◌,
  Bool, true, List, [], ◌∷◌, map, Text, same, includes, if_cases, keep, ℕ, zero, suc, All,
  All-append,
}
use txt.Browser.Validation.{is_blank}
use txt.Browser.LibraryModel.{LibraryBook, Texts, all_books_sorted, is_accessed, is_bookmarked}
use txt.Browser.LibrarySearch.{
  Activity, access, bookmark, quoted, asked, search_of, or_text, drop_blank, trim_end,
  ExactSearchRecord, matches_activity, rank_of, push_ranked, rank_all, flat, exact_matches,
  to_exact_search_record, or_fuzzy, matches_of, parse_search, create_book_search,
}

keep-All : {A : Type 0} (p : A → Bool) (xs : List A) → All (λ a. p a ≡ true) (keep p xs)
keep-All p [] = tt
keep-All {A} p (x ∷ xs) =
    if_cases (All (λ (a : A). p a ≡ true)) (p x) (λ h. (h, keep-All p xs)) (λ _. keep-All p xs)

module _ (P : LibraryBook → Type 0) where
  push_ranked-All :
      (rank : ℕ) (book : LibraryBook) (ranked : List (List LibraryBook))
      → P book
      → All (All P) ranked
      → All (All P) (push_ranked rank book ranked)
  unfolding push_ranked
  push_ranked-All rank book [] p h = tt
  push_ranked-All zero book (r ∷ rs) p h = (All-append P r (book ∷ []) h.0 (p, tt), h.1)
  push_ranked-All (suc rank) book (r ∷ rs) p h = (h.0, push_ranked-All rank book rs p h.1)

  rank_all-All :
      (query : Text) (records : List ExactSearchRecord) (ranked : List (List LibraryBook))
      → All (λ r. P r.book) records
      → All (All P) ranked
      → All (All P) (rank_all query records ranked)
  unfolding rank_all
  rank_all-All query [] ranked k h = h
  rank_all-All query (r ∷ rs) ranked k h = rank_all-All query rs _ k.1 (
      if_cases (All (All P)) (includes r.all query)
        (λ _. push_ranked-All (rank_of query r.fields) r.book ranked k.0 h) (λ _. h))

  flat-All : (ranked : List (List LibraryBook)) → All (All P) ranked → All P (flat ranked)
  unfolding flat
  flat-All [] h = tt
  flat-All (r ∷ rs) h = All-append P r (flat rs) h.0 (flat-All rs h.1)

  exact_matches-All :
      (records : List ExactSearchRecord) (query : Text)
      → All (λ r. P r.book) records
      → All P (exact_matches records query)
  unfolding exact_matches
  exact_matches-All records query h =
      flat-All _ (rank_all-All query records _ h (tt, (tt, (tt, (tt, (tt, tt))))))

  books-All :
      (records : List ExactSearchRecord)
      → All (λ r. P r.book) records
      → All P (map (λ r. r.book) records)
  books-All [] h = tt
  books-All (r ∷ rs) h = (h.0, books-All rs h.1)

  or_fuzzy-All :
      (texts : Texts) (exact fuzzy : List LibraryBook)
      → All P exact
      → All P fuzzy
      → All P (or_fuzzy texts exact fuzzy)
  unfolding or_fuzzy
  or_fuzzy-All texts [] fuzzy h k = k
  or_fuzzy-All texts (b ∷ bs) fuzzy h k = h

create_book_search-All :
    (texts : Texts) (books : List LibraryBook) (query : Text)
    → All
        (λ b. matches_activity b (parse_search texts query).activity ≡ true)
        (create_book_search texts books query)
unfolding create_book_search matches_of
create_book_search-All texts books query =
    let parsed = parse_search texts query in
    let P : LibraryBook → Type 0 = λ b. matches_activity b parsed.activity ≡ true in
    let found =
      keep-All (λ (r : ExactSearchRecord). matches_activity r.book parsed.activity)
        (map (to_exact_search_record texts) (all_books_sorted texts books)) in
    if_cases (All P) (same parsed.text []) (λ _. books-All P _ found)
      (λ _.
        or_fuzzy-All P texts _ _ (exact_matches-All P _ _ found)
          (keep-All (λ b. matches_activity b parsed.activity) _))

-- The letter that asks for an activity, and how much a book has of it.
abbrev pub letter_of : Activity → ℕ
letter_of access = b'a'
letter_of bookmark = b'b'

abbrev pub amount_of : Activity → LibraryBook → ℕ
amount_of access book = book.last_accessed
amount_of bookmark book = book.bookmark_count

-- A character of ASCII that is no upper-case letter.
abbrev pub IsLower : ℕ → Type 0
IsLower c = (c < 65) ⊎ ((90 < c) × (c < 128))

abbrev pub IsUnquoted : ℕ → Type 0
IsUnquoted c = IsLower c × (c ≢ 39)

matches_activity-amount :
    (activity : Activity) (book : LibraryBook)
    → matches_activity book (some activity) ≡ ltb 0 (amount_of activity book)
unfolding matches_activity is_accessed is_bookmarked
matches_activity-amount access book = refl
matches_activity-amount bookmark book = refl

no_text : (xs : Text) (c : ℕ) → same (xs ++ c ∷ []) [] ≡ false
unfolding same
no_text [] c = refl
no_text (x ∷ xs) c = refl

trim_end-last : (xs : Text) (c : ℕ) → is_blank c ≡ false → trim_end (xs ++ c ∷ []) ≡ xs ++ c ∷ []
unfolding trim_end
trim_end-last [] c h = rw h refl
trim_end-last (x ∷ xs) c h = elim (Bool-cases (is_blank x)) [
  | inl e ↦ rw (e, trim_end-last xs c h, no_text xs c) refl
  | inr e ↦ rw (e, trim_end-last xs c h) refl
]

quoted-unquoted : (words : Text) → All IsUnquoted words → quoted (words ++ codes "'") ≡ some words
unfolding quoted
quoted-unquoted [] h = refl
quoted-unquoted (c ∷ []) h = ground (arith, h.0)
quoted-unquoted (c ∷ d ∷ words) h =
    let rest = quoted-unquoted (d ∷ words) h.1 in
    let other : (c == 39) ≡ false = ground (arith, h.0) in rw (other, rest) refl

lowered : (words : Text) → All IsUnquoted words → All IsLower (words ++ codes "'")
lowered [] h = (inl (omega arith), tt)
lowered (c ∷ cs) h = (h.0.0, lowered cs h.1)

module _ (texts : Texts)
    (lower : (text : Text) → All IsLower text → texts.to_lower_case text ≡ text) where
  parse_search-star :
      (activity : Activity)
      → parse_search texts (letter_of activity ∷ codes ":*")
        ≡ record { activity = some activity; text = [] }
  unfolding parse_search search_of asked or_text drop_blank trim_end is_blank same
  parse_search-star access =
      rw
        (lower (codes "a:*")
          (inr (omega arith, omega arith), (inl (omega arith), (inl (omega arith), tt))))
        refl
  parse_search-star bookmark =
      rw
        (lower (codes "b:*")
          (inr (omega arith, omega arith), (inl (omega arith), (inl (omega arith), tt))))
        refl

  parse_search-quoted :
      (activity : Activity) (words : Text)
      → All IsUnquoted words
      → parse_search texts (letter_of activity ∷ codes ":'" ++ words ++ codes "'")
        ≡ record { activity = some activity; text = words }
  unfolding parse_search search_of asked or_text drop_blank is_blank
  parse_search-quoted access words h =
      rw
        (
          trim_end-last (codes "a:'" ++ words) 39 refl,
          lower (codes "a:'" ++ words ++ codes "'") (
            inr (omega arith, omega arith),
            (inl (omega arith), (inl (omega arith), lowered words h)),
          ),
          quoted-unquoted words h,
        )
        refl
  parse_search-quoted bookmark words h =
      rw
        (
          trim_end-last (codes "b:'" ++ words) 39 refl,
          lower (codes "b:'" ++ words ++ codes "'") (
            inr (omega arith, omega arith),
            (inl (omega arith), (inl (omega arith), lowered words h)),
          ),
          quoted-unquoted words h,
        )
        refl

  kept_books :
      (activity : Activity) (books : List LibraryBook)
      → map
          (λ r. r.book)
          (keep
            (λ r. matches_activity r.book (some activity))
            (map (to_exact_search_record texts) books))
        ≡ keep (λ b. ltb 0 (amount_of activity b)) books
  unfolding to_exact_search_record
  kept_books activity [] = refl
  kept_books activity (b ∷ bs) =
      let rest = kept_books activity bs in
      elim (Bool-cases (ltb 0 (amount_of activity b))) [
        | inl e ↦ rw (matches_activity-amount activity b, e, rest) refl
        | inr e ↦ rw (matches_activity-amount activity b, e, rest) refl
      ]

  active_books :
      (activity : Activity) (books : List LibraryBook)
      → All (λ b. matches_activity b (some activity) ≡ true) books
      → All (λ b. 0 < amount_of activity b) books
  active_books activity [] h = tt
  active_books activity (b ∷ bs) h =
      (ground (arith, h.0, matches_activity-amount activity b), active_books activity bs h.1)

  -- A search for `a:*` finds the books that were opened, in the order of their titles, and one for `b:*`
  -- those with a bookmark. A search for `a:'words'` finds only books that were opened, and one for
  -- `b:'words'` only books with a bookmark, where the words are lower-case ASCII without a quote, and
  -- such a text is its own lower case.
  pub create_book_search-activity :
      (books : List LibraryBook) (activity : Activity) (words : Text)
      → All IsUnquoted words
      → (create_book_search texts books (letter_of activity ∷ codes ":*")
          ≡ keep (λ b. ltb 0 (amount_of activity b)) (all_books_sorted texts books))
        × All
            (λ b. 0 < amount_of activity b)
            (create_book_search texts books (letter_of activity ∷ codes ":'" ++ words ++ codes "'"))
  unfolding create_book_search matches_of same
  create_book_search-activity books activity words h = (
    rw (parse_search-star activity) (kept_books activity (all_books_sorted texts books)),
    active_books activity _ (
        subst
          (λ parsed.
            All (λ b. matches_activity b parsed.activity ≡ true)
              (create_book_search texts books
                (letter_of activity ∷ codes ":'" ++ words ++ codes "'")))
          (parse_search-quoted activity words h)
          (create_book_search-All texts books
            (letter_of activity ∷ codes ":'" ++ words ++ codes "'"))),
  )
