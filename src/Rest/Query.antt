-- ===== src/Rest/Query.antt =====
-- The query of `GET /books` as text, on which the handler calls `std::stoi`, and the pages that a
-- client reads by it.
use architecture_course.Prelude.{
  ℕ, suc, zero, ◌*◌, ◌^◌, ◌≤◌, ◌<◌, String, Option, none, some, List, [], ◌++◌, true, false,
  is_empty, take, ◌≡◌, refl, arith, subst, Bool-cases, inl, inr, eq_iff, ◌∙◌, if◌then◌else◌,
  replied, failed, thrown, Reply,
}
use mathlib.Core.Path.{ap₂}
use architecture_course.Prelude.Int.{ℤ, pos}
use architecture_course.Prelude.Decimal.{to_string}
use architecture_course.Prelude.Decimal.Reading.{IsFilled, to_string-IsWritten}
use architecture_course.Prelude.Decimal.Signed.{signed_to_string}
use architecture_course.Prelude.Decimal.Parsing.{fits, parse_signed, parse_signed-signed_to_string}
use architecture_course.Rest.Database.{Book, Database, get_filtered_and_paginated_books}
use architecture_course.Rest.Handlers.{
  Parameter, absent, unreadable, number, Page, get_books, page_within, limit_within,
}
use architecture_course.Rest.Paging.{books_of, listing_pages, listing_pages_lem}

-- `std::stoi`, which ignores what stands after the number.
unfoldable pub stoi : String → Option ℤ
stoi s = elim (parse_signed 2147483648 s) [ none ↦ none | some (z, rest) ↦ some z ]

-- A parameter that is missing is an empty text.
unfoldable pub read_parameter : String → Parameter
read_parameter s =
    if is_empty s then absent else elim (stoi s) [ none ↦ unreadable | some z ↦ number z ]

unfoldable pub request_books : Database → String → String → String → Reply Page
request_books db genre page_text limit_text =
    get_books db genre (read_parameter page_text) (read_parameter limit_text)

filled_not_empty : (s : String) → IsFilled s → is_empty s ≡ false
filled_not_empty s h = elim (Bool-cases (is_empty s)) [
  | inl e ↦ absurd (subst IsFilled ((eq_iff s "").0 e) h)
  | inr e ↦ e
]

pub stoi-to_string : (n : ℕ) → n < 2 ^ 31 → stoi (to_string n) ≡ some (pos n)
unfolding stoi signed_to_string
stoi-to_string n h =
    let fit : fits 2147483648 (pos n) ≡ true = ground arith in
    rw (stoi, parse_signed-signed_to_string 2147483648 (pos n), fit) refl

read_parameter-to_string : (n : ℕ) → n < 2 ^ 31 → read_parameter (to_string n) ≡ number (pos n)
unfolding read_parameter
read_parameter-to_string n h =
    rw (filled_not_empty (to_string n) (to_string-IsWritten n).filled, stoi-to_string n h) refl

-- The books of a reply.
abbrev pub books_in : Reply Page → List Book
books_in (replied status page) = page.books
books_in (failed status message) = []
books_in thrown = []

request_books_lem :
    (db : Database) (genre : String) (n limit : ℕ)
    → suc n < 2 ^ 31
    → 0 < limit
    → limit ≤ 100
    → books_in (request_books db genre (to_string (suc n)) (to_string limit))
      ≡ get_filtered_and_paginated_books db genre (pos (suc n)) (pos limit)
unfolding request_books get_books
request_books_lem db genre n limit h l m =
    let within : limit_within (pos limit) ≡ pos limit = ground arith in
    let page : page_within (pos (suc n)) ≡ pos (suc n) = ground arith in
    rw
      (
        request_books,
        read_parameter-to_string (suc n) h,
        read_parameter-to_string limit (omega arith),
        page,
        within,
      )
      refl

-- The books of the first `n` pages, as they are requested one after the other.
abbrev pub requested : Database → String → ℕ → ℕ → List Book
requested db genre zero limit = []
requested db genre (suc n) limit =
    requested db genre n limit
    ++ books_in (request_books db genre (to_string (suc n)) (to_string limit))

requested_same :
    (db : Database) (genre : String) (n limit : ℕ)
    → n < 2 ^ 31
    → 0 < limit
    → limit ≤ 100
    → requested db genre n limit ≡ listing_pages db genre n limit
requested_same db genre zero limit h l m = refl
requested_same db genre (suc n) limit h l m =
    ap₂ ◌++◌ (requested_same db genre n limit (omega arith) l m)
      (request_books_lem db genre n limit h l m)

-- For a limit from 1 to 100, the answers to the requests for the pages 1 to `n`, with the page and the
-- limit in decimal digits, have one after the other the first `n * limit` books of the genre (of all
-- books for an empty genre), as long as the positions and the pages are in the range of `int`.
pub requested_lem :
    (db : Database) (genre : String) (n limit : ℕ)
    → n < 2 ^ 31
    → 0 < limit
    → limit ≤ 100
    → n * limit < 2 ^ 31
    → requested db genre n limit ≡ take (n * limit) (books_of db genre)
requested_lem db genre n limit h l m k =
    requested_same db genre n limit h l m ∙ listing_pages_lem db genre n limit k
