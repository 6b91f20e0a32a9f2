-- ===== src/Rest/Handlers.antt =====
-- The handlers of `main`. JSON and the text of a request are parameters: a handler gets what it reads.
-- The fixed documents (`/`, `/health`) and the CORS headers are left out, and a response body is the
-- data that the source writes into it.
use architecture_course.Prelude.{
  thrown, replied, failed, Reply, nat_eq, string_eq, ℕ, ◌-◌, ◌^◌, String, Option, none, some, List,
  Bool, true, false, ◌||◌, ◌==◌, if◌then◌else◌, is_empty, length, map, Result, ok, err,
}
use architecture_course.Prelude.Int.{ℤ, pos, negsuc, ltb_ℤ}
use architecture_course.Rest.Database.{
  empty_database, Author, Book, Database, add_author, get_author, update_author,
  get_book_count_for_author, delete_author, get_all_authors, add_book, get_book, update_book,
  delete_book, get_filtered_and_paginated_books,
}

-- `json::parse` of a body, and `j.at(key)` converted to a text or to an `int`; `none` where the
-- library throws.
pub record Bodies {ℓ} (J : Type ℓ) : Type ℓ where
  pub parse : String → Option J
  pub string_at : String → J → Option String
  pub int_at : String → J → Option ℤ

infixl 5 ◌>>=◌
-- The fields are read in turn, and the first that is missing ends the reading.
abbrev ◌>>=◌ {ℓ κ} : {A : Type ℓ} {B : Type κ} → Option A → (A → Option B) → Option B
none >>= read = none
some a >>= read = read a

-- A query parameter that `std::stoi` is called on.
pub data Parameter : Type 0 where
  absent unreadable : Parameter
  number : ℤ → Parameter

pub record Page : Type 0 where
  pub page : ℤ
  pub limit : ℤ
  pub total : ℕ
  pub books : List Book

abbrev pub number_or : ℤ → Parameter → Option ℤ
number_or default absent = some default
number_or default unreadable = none
number_or default (number z) = some z

abbrev pub page_within : ℤ → ℤ
page_within page = if ltb_ℤ page (pos 1) then pos 1 else page

abbrev pub limit_within : ℤ → ℤ
limit_within limit =
    let raised = if ltb_ℤ limit (pos 1) then pos 10 else limit in
    if ltb_ℤ (pos 100) raised then pos 100 else raised

-- `GET /books`
unfoldable pub get_books : Database → String → Parameter → Parameter → Reply Page
get_books db genre page_text limit_text = elim (number_or (pos 1) page_text) [
  | none ↦ thrown
  | some page ↦ elim (number_or (pos 10) limit_text) [
    | none ↦ thrown
    | some limit ↦
        let p = page_within page in
        let l = limit_within limit in
        let books = get_filtered_and_paginated_books db genre p l in
        replied 200 (record { page = p; limit = l; total = length books; books = books })
  ]
]

-- `GET /books/{id}`. An id that `std::stoi` does not read is `none`, here and below.
unfoldable pub get_book_by_id : Database → Option ℕ → Reply Book
get_book_by_id db none = thrown
get_book_by_id db (some id) =
    let book = get_book db id in
    if book.id == 0 then failed 404 "Книга не найдена" else replied 200 book

-- The bit pattern of an `int`
abbrev pub id_of : ℤ → ℕ
id_of (pos n) = n
id_of (negsuc n) = 2 ^ 32 - 1 - n

pub record BookFields : Type 0 where
  pub title : String
  pub genre : String
  pub year : ℤ
  pub author_id : ℕ

pub record AuthorFields : Type 0 where
  pub first_name : String
  pub last_name : String
  pub dob : String

module _ {ℓ} {J : Type ℓ} (bodies : Bodies J) where
  open bodies use {parse, string_at, int_at}

  -- The four fields of a book, and the three of an author.
  abbrev pub read_book : J → Option BookFields
  read_book j = do
    title ← string_at "title" j
    genre ← string_at "genre" j
    year ← int_at "year" j
    author_id ← int_at "authorId" j
    some (record { title = title; genre = genre; year = year; author_id = id_of author_id })

  abbrev pub read_author : J → Option AuthorFields
  read_author j = do
    first_name ← string_at "firstName" j
    last_name ← string_at "lastName" j
    dob ← string_at "dob" j
    some (record { first_name = first_name; last_name = last_name; dob = dob })

  -- `POST /books`
  unfoldable pub post_book : Database → String → Reply Book × Database
  post_book db body = elim (parse body) [
    | none ↦ (failed 400 "Неверный формат JSON", db)
    | some j ↦ elim (read_book j) [
      | none ↦ (failed 400 "Отсутствуют обязательные поля", db)
      | some f ↦
          if is_empty f.title || is_empty f.genre || ltb_ℤ f.year (pos 0)
          then (failed 400 "Неверные данные книги", db)
          else answer (add_book db f.title f.genre f.year f.author_id)
    ]
  ]
    where
      answer : Result Book × Database → Reply Book × Database
      answer (ok book, after) = (replied 201 book, after)
      answer (err message, after) = (failed 404 "Автор не найден", after)

  -- `PUT /books/{id}`
  unfoldable pub put_book : Database → Option ℕ → String → Reply Book × Database
  put_book db none body = (thrown, db)
  put_book db (some id) body = elim (parse body) [
    | none ↦ (failed 400 "Неверный формат JSON", db)
    | some j ↦ elim (read_book j) [
      | none ↦ (failed 400 "Отсутствуют обязательные поля", db)
      | some f ↦
          let (success, after) = update_book db id f.title f.genre f.year f.author_id in
          if success
          then (replied 200 (get_book after id), after)
          else (failed 404 "Книга или автор не найдены", after)
    ]
  ]

  -- `POST /authors`
  unfoldable pub post_author : Database → String → Reply Author × Database
  post_author db body = elim (parse body) [
    | none ↦ (failed 400 "Неверный формат JSON", db)
    | some j ↦ elim (read_author j) [
      | none ↦ (failed 400 "Отсутствуют обязательные поля", db)
      | some f ↦
          if is_empty f.first_name || is_empty f.last_name
          then (failed 400 "Имя и фамилия обязательны", db)
          else let (author, after) = add_author db f.first_name f.last_name f.dob in
            (replied 201 author, after)
    ]
  ]

  -- `PUT /authors/{id}`
  unfoldable pub put_author : Database → Option ℕ → String → Reply Author × Database
  put_author db none body = (thrown, db)
  put_author db (some id) body = elim (parse body) [
    | none ↦ (failed 400 "Неверный формат JSON", db)
    | some j ↦ elim (read_author j) [
      | none ↦ (failed 400 "Отсутствуют обязательные поля", db)
      | some f ↦
          let (success, after) = update_author db id f.first_name f.last_name f.dob in
          if success
          then (replied 200 (get_author after id), after)
          else (failed 404 "Автор не найден", after)
    ]
  ]

-- `DELETE /books/{id}` and `DELETE /authors/{id}`; a 204 has no body.
unfoldable pub remove_book : Database → Option ℕ → Reply (Unit {0}) × Database
remove_book db none = (thrown, db)
remove_book db (some id) =
    let (success, after) = delete_book db id in
    if success then (replied 204 tt, after) else (failed 404 "Книга не найдена", after)

unfoldable pub remove_author : Database → Option ℕ → Reply (Unit {0}) × Database
remove_author db none = (thrown, db)
remove_author db (some id) =
    let (success, after) = delete_author db id in
    if success
    then (replied 204 tt, after)
    else (failed 400 "Нельзя удалить автора, у которого есть книги", after)

-- `toJson` or `toJsonWithBookCount`
abbrev pub author_view : Database → Bool → Author → Author × Option ℕ
author_view db true author = (author, some (get_book_count_for_author db author.id))
author_view db false author = (author, none)

-- `GET /authors`
unfoldable pub get_authors : Database → Bool → Reply (List (Author × Option ℕ))
get_authors db include_books = replied 200 (map (author_view db include_books) (get_all_authors db))

-- `GET /authors/{id}`
unfoldable pub get_author_by_id : Database → Option ℕ → Bool → Reply (Author × Option ℕ)
get_author_by_id db none include_books = thrown
get_author_by_id db (some id) include_books =
    let author = get_author db id in
    if author.id == 0
    then failed 404 "Автор не найден"
    else replied 200 (author_view db include_books author)

-- The authors and books that `main` starts with.
abbrev pub initial_authors : Author × Author × Author × Database
initial_authors =
    let (author1, db1) = add_author empty_database "Лев" "Толстой" "1828-09-09" in
    let (author2, db2) = add_author db1 "Фёдор" "Достоевский" "1821-11-11" in
    let (author3, db3) = add_author db2 "Айзек" "Азимов" "1920-01-02" in
    (author1, author2, author3, db3)

unfoldable pub initial_database : Database
initial_database =
    let (author1, author2, author3, db) = initial_authors in
    let db1 = (add_book db "Война и мир" "Роман" (pos 1869) author1.id).1 in
    let db2 = (add_book db1 "Анна Каренина" "Роман" (pos 1877) author1.id).1 in
    let db3 = (add_book db2 "Преступление и наказание" "Роман" (pos 1866) author2.id).1 in
    let db4 = (add_book db3 "Идиот" "Роман" (pos 1869) author2.id).1 in
    let db5 = (add_book db4 "Я, робот" "Фантастика" (pos 1950) author3.id).1 in
    (add_book db5 "Основание" "Фантастика" (pos 1951) author3.id).1
