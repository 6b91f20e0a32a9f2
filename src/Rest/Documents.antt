-- ===== src/Rest/Documents.antt =====
-- The JSON of the responses: `toJson` of authors and books, a page of books, and the fixed documents.
use architecture_course.Prelude.{ℕ, Option, none, some, [], ◌∷◌}
use architecture_course.Prelude.Int.{ℤ}
use architecture_course.Prelude.Json.{
  Json, Members, text, integer, number, object, array, braced, pushed, set_member,
}
use architecture_course.Rest.Database.{Author, Book}
use architecture_course.Rest.Handlers.{Page}

abbrev pub author_members : Author → Members ℤ
author_members author = braced (
    ("id", integer author.id)
    ∷ ("firstName", text author.first_name)
    ∷ ("lastName", text author.last_name)
    ∷ ("dob", text author.dob)
    ∷ [])

unfoldable pub author_to_json : Author → Json ℤ
author_to_json author = object (author_members author)

-- `j["booksWritten"] = bookCount`
unfoldable pub author_to_json_with_book_count : Author → ℕ → Json ℤ
author_to_json_with_book_count author book_count =
    object (set_member "booksWritten" (integer book_count) (author_members author))

unfoldable pub book_to_json : Book → Json ℤ
book_to_json book = object (
    braced (
      ("id", integer book.id)
      ∷ ("title", text book.title)
      ∷ ("genre", text book.genre)
      ∷ ("year", number book.year)
      ∷ ("authorId", integer book.author_id)
      ∷ []))

-- An author with the count of the books, where it was asked for.
abbrev pub author_view_to_json : Author × Option ℕ → Json ℤ
author_view_to_json (author, none) = author_to_json author
author_view_to_json (author, some book_count) = author_to_json_with_book_count author book_count

unfoldable pub page_to_json : Page → Json ℤ
page_to_json page = object (
    braced (
      ("page", number page.page)
      ∷ ("limit", number page.limit)
      ∷ ("total", integer page.total)
      ∷ ("books", array (pushed book_to_json page.books))
      ∷ []))

-- `GET /`
unfoldable pub api_document : Json ℤ
api_document = object (
    braced (
      ("name", text "Library Management API")
      ∷ ("version", text "1.0.0")
      ∷ ("description", text "REST API для управления книгами и авторами")
      ∷ (
        "endpoints",
        object (
            braced (
              ("GET /books", text "Получить список всех книг")
              ∷ ("GET /books/{id}", text "Получить книгу по ID")
              ∷ ("POST /books", text "Добавить новую книгу")
              ∷ ("PUT /books/{id}", text "Обновить книгу")
              ∷ ("DELETE /books/{id}", text "Удалить книгу")
              ∷ ("GET /authors", text "Получить список всех авторов")
              ∷ ("GET /authors/{id}", text "Получить автора по ID")
              ∷ ("POST /authors", text "Добавить нового автора")
              ∷ ("PUT /authors/{id}", text "Обновить автора")
              ∷ ("DELETE /authors/{id}", text "Удалить автора")
              ∷ [])),
      )
      ∷ []))

-- `GET /health`; the clock is an argument.
unfoldable pub health_document : ℤ → Json ℤ
health_document now = object (braced (("status", text "ok") ∷ ("timestamp", number now) ∷ []))
