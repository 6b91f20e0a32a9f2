-- ===== src/Rest/Tests.antt =====
-- Runs on the data that the program starts with, and the theorems at concrete requests.
use architecture_course.Prelude.{
  replied, failed, nat_eq, string_eq, ◌*◌, ◌^◌, String, some, List, [], ◌∷◌, ◌≡◌, refl, arith, take,
  Option, none, false, ◌&&◌, ◌==◌, if◌then◌else◌, ◌<◌,
}
use architecture_course.Prelude.Int.{ℤ, pos}
use architecture_course.Prelude.Map.{Map, lookup, insert}
use architecture_course.Rest.Database.{
  has_book, Book, empty_database, add_author, add_book, delete_author,
}
use architecture_course.Rest.Consistent.{IsConsistent}
use architecture_course.Rest.Paging.{books_of}
use architecture_course.Rest.Serving.{initial-IsConsistent}
use architecture_course.Prelude.Decimal.{to_string}
use architecture_course.Prelude.Http.{Method, get, post, delete, options, HttpRequest, dispatch}
use architecture_course.Rest.Server.{cors_headers, serve, serve_all}
use architecture_course.Rest.Roundtrip.{IsGetBook, serve-created_book}
use architecture_course.Rest.Serving.{IsServed, serve-IsServed, serve_all-initial_database}
use architecture_course.Rest.Query.{requested, requested_lem}
use architecture_course.Rest.Handlers.{Bodies, initial_database, post_book, remove_author}

requested_lem_example :
    requested initial_database "Роман" 2 3 ≡ take (2 * 3) (books_of initial_database "Роман")
requested_lem_example =
    requested_lem initial_database "Роман" 2 3 (omega arith) (omega arith) (omega arith)
      (omega arith)

-- A body is a book or nothing that can be read.
pub record Fields : Type 0 where
  pub strings : Map String String
  pub integers : Map String ℤ

abbrev new_book : Fields
new_book = record {
  strings = ("title", "Солярис") ∷ ("genre", "Фантастика") ∷ [];
  integers = ("year", pos 1961) ∷ ("authorId", pos 3) ∷ [];
}

abbrev bodies : Bodies Fields
bodies = record {
  parse = λ body. lookup body (("solaris", new_book) ∷ []);
  string_at = λ key j. lookup key j.strings;
  int_at = λ key j. lookup key j.integers;
}

abbrev solaris : Book
solaris = record { id = 7; title = "Солярис"; genre = "Фантастика"; year = pos 1961; author_id = 3 }

solaris_posted :
    post_book bodies initial_database "solaris"
    ≡ (replied 201 solaris, (post_book bodies initial_database "solaris").1)
unfolding initial_database empty_database add_author add_book lookup insert post_book
solaris_posted = refl

-- An author who is not stored is refused with the words for one who has books.
missing_author :
    (remove_author initial_database (some 9)).0
    ≡ failed 400 "Нельзя удалить автора, у которого есть книги"
unfolding initial_database empty_database add_author add_book delete_author remove_author lookup
    insert has_book
missing_author = refl

-- A match of the paths that the requests below have.
abbrev matches : String → String → Option (List String)
matches pattern path =
    if pattern == "/books/(\\d+)" && path == "/books/7"
    then some ("7" ∷ [])
    else if pattern == "/authors/(\\d+)" && path == "/authors/1"
    then some ("1" ∷ [])
    else if pattern == path
    then some []
    else none

abbrev request : Method → String → String → HttpRequest
request method path body = record {
  method = method;
  path = path;
  param = λ name. "";
  has_param = λ name. false;
  header = λ name. "";
  body = body;
}

abbrev make_solaris : HttpRequest
make_solaris = request post "/books" "solaris"

abbrev get_solaris : HttpRequest
get_solaris = request get "/books/7" ""

-- Tolstoy has books and stays.
abbrev delete_tolstoy : HttpRequest
delete_tolstoy = request delete "/authors/1" ""

serve-IsServed_example :
    IsServed delete_tolstoy initial_database
      (serve bodies (pos 0) matches delete_tolstoy initial_database)
serve-IsServed_example = serve-IsServed delete_tolstoy initial_database bodies (pos 0) matches

serve_all-initial_database_example : IsConsistent (
    serve_all bodies
      (pos 0)
      matches
      (make_solaris ∷ delete_tolstoy ∷ get_solaris ∷ [])
      initial_database)
serve_all-initial_database_example =
    serve_all-initial_database bodies (pos 0) matches
      (make_solaris ∷ delete_tolstoy ∷ get_solaris ∷ [])

get_solaris-IsGetBook : IsGetBook matches initial_database.next_book_id get_solaris
unfolding to_string initial_database add_book lookup add_author insert empty_database
get_solaris-IsGetBook = record { method = refl; root = refl; books = refl; book = refl }

solaris_made : (serve bodies (pos 0) matches make_solaris initial_database).0.status ≡ 201
unfolding serve dispatch post_book initial_database add_book lookup add_author insert empty_database
solaris_made = refl

solaris_in_range : initial_database.next_book_id < 2 ^ 31
unfolding initial_database add_book lookup add_author insert empty_database
solaris_in_range = omega arith

serve-created_book_example :
    let (res, after) = serve bodies (pos 0) matches make_solaris initial_database in
    serve bodies (pos 0) matches get_solaris after ≡ (record res { status = 200 }, after)
serve-created_book_example =
    serve-created_book bodies (pos 0) matches make_solaris get_solaris initial_database
      initial-IsConsistent solaris_in_range (record { method = refl; books = refl })
      get_solaris-IsGetBook solaris_made

abbrev everything : String → String → Option (List String)
everything pattern path = if pattern == ".*" then some [] else none

-- The response to a preflight request names the allowed origin twice.
preflight_twice :
    let r = serve bodies (pos 0) everything (request options "/books" "") initial_database in
    r.0.headers ≡ ("Access-Control-Allow-Origin", "*") ∷ cors_headers
unfolding serve dispatch
preflight_twice = refl
