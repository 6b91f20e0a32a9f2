-- ===== src/Rest/Server.antt =====
-- The server of `main`: its routes, the CORS headers, and requests one after the other.
use architecture_course.Prelude.{
  ℕ, String, string_eq, Option, none, some, List, [], ◌∷◌, ◌++◌, ◌==◌, Reply,
}
use architecture_course.Prelude.Int.{ℤ}
use architecture_course.Prelude.Json.{Json, array, pushed}
use architecture_course.Prelude.Http.{
  get, post, put, delete, options, HttpRequest, HttpResponse, Route, route, plain, with_json,
  answered, capture, dispatch,
}
use architecture_course.Rest.Database.{Database}
use architecture_course.Rest.Handlers.{
  Bodies, get_book_by_id, id_of, post_book, put_book, post_author, put_author, remove_book,
  remove_author, get_authors, get_author_by_id,
}
use architecture_course.Rest.Query.{stoi, request_books}
use architecture_course.Rest.Documents.{
  author_to_json, book_to_json, author_view_to_json, page_to_json, api_document, health_document,
}

-- `std::stoi(req.matches[1])`
abbrev pub path_id : List String → Option ℕ
path_id captured = elim (stoi (capture 0 captured)) [ none ↦ none | some z ↦ some (id_of z) ]

abbrev pub no_content : Unit {0} → Option (Json ℤ)
no_content u = none

-- A handler that only reads, and one that also changes the database.
abbrev pub reading {ℓ} :
    {A : Type ℓ} → (A → Json ℤ) → Database → Reply A → HttpResponse ℤ × Database
reading content db reply = (answered (λ a. some (content a)) reply, db)

abbrev pub changing {ℓ} :
    {A : Type ℓ} → (A → Option (Json ℤ)) → Reply A × Database → HttpResponse ℤ × Database
changing content (reply, db) = (answered content reply, db)

abbrev pub cors_headers : List (String × String)
cors_headers =
    ("Access-Control-Allow-Origin", "*")
    ∷ ("Access-Control-Allow-Methods", "GET, POST, PUT, DELETE, OPTIONS")
    ∷ ("Access-Control-Allow-Headers", "Content-Type")
    ∷ []

-- `set_pre_routing_handler`: the header is there before a route is tried.
abbrev pub pre_routing {ℓ} : {W : Type ℓ} → HttpResponse W × Database → HttpResponse W × Database
pre_routing (res, db) =
    (record res { headers = ("Access-Control-Allow-Origin", "*") ∷ res.headers }, db)

module _ {ℓ} {J : Type ℓ} (bodies : Bodies J) (now : ℤ) where
  abbrev pub book_routes : List (Route Database (HttpResponse ℤ))
  book_routes =
      route get "/books" (λ req captured db.
        reading page_to_json db
          (request_books db (req.param "genre") (req.param "page") (req.param "limit")))
      ∷ route get "/books/(\\d+)"
          (λ req captured db. reading book_to_json db (get_book_by_id db (path_id captured)))
      ∷ route post "/books" (λ req captured db.
        changing (λ book. some (book_to_json book)) (post_book bodies db req.body))
      ∷ route put "/books/(\\d+)" (λ req captured db.
        changing (λ book. some (book_to_json book))
          (put_book bodies db (path_id captured) req.body))
      ∷ route delete "/books/(\\d+)"
          (λ req captured db. changing no_content (remove_book db (path_id captured)))
      ∷ []

  abbrev pub author_routes : List (Route Database (HttpResponse ℤ))
  author_routes =
      route get "/authors" (λ req captured db.
        reading (λ authors. array (pushed author_view_to_json authors)) db
          (get_authors db (req.param "includeBooks" == "true")))
      ∷ route get "/authors/(\\d+)" (λ req captured db.
        reading author_view_to_json db
          (get_author_by_id db (path_id captured) (req.param "includeBooks" == "true")))
      ∷ route post "/authors" (λ req captured db.
        changing (λ author. some (author_to_json author)) (post_author bodies db req.body))
      ∷ route put "/authors/(\\d+)" (λ req captured db.
        changing (λ author. some (author_to_json author))
          (put_author bodies db (path_id captured) req.body))
      ∷ route delete "/authors/(\\d+)"
          (λ req captured db. changing no_content (remove_author db (path_id captured)))
      ∷ []

  abbrev pub fixed_routes : List (Route Database (HttpResponse ℤ))
  fixed_routes =
      route get "/health" (λ req captured db. (with_json 200 (health_document now), db))
      ∷ route options ".*" (λ req captured db. (record (plain 200) { headers = cors_headers }, db))
      ∷ []

  abbrev pub routes : List (Route Database (HttpResponse ℤ))
  routes =
      (route get "/" (λ req captured db. (with_json 200 api_document, db)) ∷ book_routes)
      ++ (author_routes ++ fixed_routes)

  module _ (matches : String → String → Option (List String)) where
    unfoldable pub serve : HttpRequest → Database → HttpResponse ℤ × Database
    serve req db = pre_routing (dispatch matches (plain 404) routes req db)

    -- Requests one after the other, as the last database.
    unfoldable pub serve_all : List HttpRequest → Database → Database
    serve_all [] db = db
    serve_all (req ∷ reqs) db = serve_all reqs (serve req db).1
