-- ===== src/Rest/Database.antt =====
-- The classes `Author`, `Book` and `Database`. An `int` id is its bit pattern; the counters count up
-- from 1 and are not run past 2^31 - 1. So `insert` adds at the end, where `std::map` has the greatest
-- key.
use architecture_course.Prelude.{
  nat_eq, string_eq, ℕ, suc, ◌-◌, ◌%◌, ◌^◌, String, Option, none, some, List, [], ◌∷◌, Bool, true,
  false, ◌||◌, not, ◌==◌, if◌then◌else◌, ltb, leb, min, length, take, drop, keep_if, count_if,
  is_empty, Result, ok, err,
}
use architecture_course.Prelude.Int.{ℤ, pos_part, pos, negsuc, ◌+ℤ◌, ◌-ℤ◌, ◌*ℤ◌}
use architecture_course.Prelude.Map.{Map, lookup, insert, erase, contains, values}

pub record Author : Type 0 where
  pub id : ℕ
  pub first_name : String
  pub last_name : String
  pub dob : String

pub record Book : Type 0 where
  pub id : ℕ
  pub title : String
  pub genre : String
  pub year : ℤ
  pub author_id : ℕ

pub record Database : Type 0 where
  pub authors : Map ℕ Author
  pub books : Map ℕ Book
  pub next_author_id : ℕ
  pub next_book_id : ℕ

unfoldable pub empty_database : Database
empty_database = record { authors = []; books = []; next_author_id = 1; next_book_id = 1 }

-- `Author()` and `Book()`, the answers for a missing id
abbrev pub no_author : Author
no_author = record { id = 0; first_name = ""; last_name = ""; dob = "" }

abbrev pub no_book : Book
no_book = record { id = 0; title = ""; genre = ""; year = pos 0; author_id = 0 }

abbrev pub or_else {ℓ} : {A : Type ℓ} → A → Option A → A
or_else a none = a
or_else a (some b) = b

unfoldable pub add_author : Database → String → String → String → Author × Database
add_author db first_name last_name dob =
    let author : Author = record {
      id = db.next_author_id;
      first_name = first_name;
      last_name = last_name;
      dob = dob;
    } in
    (
      author,
      record db {
        authors = insert db.next_author_id author db.authors;
        next_author_id = suc db.next_author_id;
      },
    )

unfoldable pub get_author : Database → ℕ → Author
get_author db id = or_else no_author (lookup id db.authors)

unfoldable pub update_author : Database → ℕ → String → String → String → Bool × Database
update_author db id first_name last_name dob = elim (lookup id db.authors) [
  | none ↦ (false, db)
  | some author ↦ (
    true,
    record db {
      authors =
          insert id (record author { first_name = first_name; last_name = last_name; dob = dob })
            db.authors;
    },
  )
]

unfoldable pub get_book_count_for_author : Database → ℕ → ℕ
unfolding values
get_book_count_for_author db author_id =
    count_if (λ (b : Book). b.author_id == author_id) (values db.books)

-- The loop of `deleteAuthor`, which returns at the first book of the author.
unfoldable pub has_book : ℕ → Map ℕ Book → Bool
has_book id [] = false
has_book id ((k, b) ∷ rest) = b.author_id == id || has_book id rest

unfoldable pub delete_author : Database → ℕ → Bool × Database
delete_author db id =
    if has_book id db.books
    then (false, db)
    else (contains id db.authors, record db { authors = erase id db.authors })

unfoldable pub get_all_authors : Database → List Author
unfolding values
get_all_authors db = values db.authors

-- `throw std::runtime_error("Author not found")` is an error.
unfoldable pub add_book : Database → String → String → ℤ → ℕ → Result Book × Database
add_book db title genre year author_id =
    if not (contains author_id db.authors)
    then (err "Author not found", db)
    else let book : Book = record {
      id = db.next_book_id;
      title = title;
      genre = genre;
      year = year;
      author_id = author_id;
    } in
      (
        ok book,
        record db {
          books = insert db.next_book_id book db.books;
          next_book_id = suc db.next_book_id;
        },
      )

unfoldable pub get_book : Database → ℕ → Book
get_book db id = or_else no_book (lookup id db.books)

unfoldable pub update_book : Database → ℕ → String → String → ℤ → ℕ → Bool × Database
update_book db id title genre year author_id =
    if not (contains author_id db.authors) then (false, db) else elim (lookup id db.books) [
      | none ↦ (false, db)
      | some book ↦ (
        true,
        record db {
          books =
              insert id
                (record book { title = title; genre = genre; year = year; author_id = author_id })
                db.books;
        },
      )
    ]

unfoldable pub delete_book : Database → ℕ → Bool × Database
delete_book db id = (contains id db.books, record db { books = erase id db.books })

unfoldable pub get_all_books : Database → List Book
unfolding values
get_all_books db = values db.books

unfoldable pub get_books_by_genre : Database → String → List Book
unfolding values
get_books_by_genre db genre = keep_if (λ (b : Book). b.genre == genre) (values db.books)

-- A product of two `int`s as two's complement keeps it.
abbrev pub to_int : ℤ → ℤ
to_int (pos n) = let r = n % 2 ^ 32 in if ltb r (2 ^ 31) then pos r else negsuc (2 ^ 32 - 1 - r)
to_int (negsuc n) = let r = n % 2 ^ 32 in if ltb r (2 ^ 31) then negsuc r else pos (2 ^ 32 - 1 - r)

-- The pagination of both listings. The sum `start + limit` stays in range, as `start` is below the
-- size; a negative limit, whose range is undefined in the source, gives nothing here.
unfoldable pub range_from {ℓ} : {A : Type ℓ} → ℕ → ℤ → List A → List A
range_from start limit list =
    if leb (length list) start
    then []
    else take (min (pos_part (pos start +ℤ limit)) (length list) - start) (drop start list)

unfoldable pub window {ℓ} : {A : Type ℓ} → ℤ → ℤ → List A → List A
unfolding range_from
window page limit list = range_from (pos_part (to_int ((page -ℤ pos 1) *ℤ limit))) limit list

unfoldable pub get_paginated_books : Database → ℤ → ℤ → List Book
unfolding window values
get_paginated_books db page limit = window page limit (values db.books)

unfoldable pub get_filtered_and_paginated_books : Database → String → ℤ → ℤ → List Book
unfolding window values
get_filtered_and_paginated_books db genre page limit =
    window page limit (keep_if (λ (b : Book). is_empty genre || b.genre == genre) (values db.books))
