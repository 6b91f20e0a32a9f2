-- ===== src/Rest/Roundtrip.antt =====
-- A book that a client makes by POST is the one that it then gets, as JSON and by the server's routes.
use architecture_course.Prelude.{
  ◌≤◌, ℕ, ◌<◌, ◌^◌, String, Option, none, some, List, [], ◌∷◌, ◌≡◌, refl, arith, Reply, replied,
  failed, thrown, ap, sym, ◌∙◌, nat_eq, string_eq, false,
}
use architecture_course.Prelude.Int.{ℤ}
use architecture_course.Prelude.Decimal.{to_string}
use architecture_course.Prelude.Http.{
  plain, get, post, HttpRequest, same_method, dispatch_takes, dispatch_skips_path,
  dispatch_skips_method,
}
use architecture_course.Rest.Database.{Book, Database, add_book}
use architecture_course.Rest.Consistent.{IsConsistent}
use architecture_course.Rest.Handlers.{Bodies, post_book, get_book_by_id}
use architecture_course.Rest.Replies.{get_book_by_id-post_book}
use architecture_course.Rest.Query.{stoi-to_string}
use architecture_course.Rest.Documents.{book_to_json}
use architecture_course.Rest.Server.{changing, reading, pre_routing, path_id, routes, serve}

-- A request for `POST /books`, and one for `GET /books/{id}`.
pub record IsPostBook (matches : String → String → Option (List String)) (req : HttpRequest)
    : Type 0 where
  pub method : req.method ≡ post
  pub books : matches "/books" req.path ≡ some []

pub record IsGetBook (matches : String → String → Option (List String)) (id : ℕ) (req : HttpRequest)
    : Type 0 where
  pub method : req.method ≡ get
  pub root : matches "/" req.path ≡ none
  pub books : matches "/books" req.path ≡ none
  pub book : matches "/books/(\\d+)" req.path ≡ some (to_string id ∷ [])

get_apart : (req : HttpRequest) → req.method ≡ post → same_method get req.method ≡ false
get_apart req e = cc

path_id_lem : (id : ℕ) → id < 2 ^ 31 → path_id (to_string id ∷ []) ≡ some id
path_id_lem id h = rw (path_id, stoi-to_string id h) refl

module _ {ℓ} {J : Type ℓ} (bodies : Bodies J) (now : ℤ)
    (matches : String → String → Option (List String)) where
  serve-post_book :
      (req : HttpRequest) (db : Database)
      → IsPostBook matches req
      → serve bodies now matches req db
        ≡ pre_routing (changing (λ book. some (book_to_json book)) (post_book bodies db req.body))
  unfolding serve
  serve-post_book req db h =
      let all = routes bodies now in
      ap pre_routing (
        dispatch_skips_method matches (plain 404) _ _ req db (get_apart req h.method)
        ∙ dispatch_skips_method matches (plain 404) _ _ req db (get_apart req h.method)
        ∙ dispatch_skips_method matches (plain 404) _ _ req db (get_apart req h.method)
        ∙ dispatch_takes matches (plain 404) _ _ req [] db h.books (rw h.method refl))

  serve-get_book :
      (req : HttpRequest) (db : Database) (id : ℕ)
      → id < 2 ^ 31
      → IsGetBook matches id req
      → serve bodies now matches req db
        ≡ pre_routing (reading book_to_json db (get_book_by_id db (some id)))
  unfolding serve
  serve-get_book req db id k h = ap pre_routing (
      dispatch_skips_path matches (plain 404) _ _ req db h.root
      ∙ dispatch_skips_path matches (plain 404) _ _ req db h.books
      ∙ dispatch_takes matches (plain 404) _ _ req (to_string id ∷ []) db h.book (rw h.method refl)
      ∙ ap (λ o. reading book_to_json db (get_book_by_id db o)) (path_id_lem id k))

  -- A reply to `POST /books`: 201 and a book under the next id, or the status of an error.
  abbrev IsMade : Database → Reply Book × Database → Type 0
  IsMade db (replied status b, after) = (status ≡ 201) × (b.id ≡ db.next_book_id)
  IsMade db (failed status message, after) = 400 ≤ status
  IsMade db (thrown, after) = ⊥

  post_book-IsMade : (db : Database) (body : String) → IsMade db (post_book bodies db body)
  unfolding post_book add_book
  post_book-IsMade db body = ground arith

  -- The response to `POST /books` from the reply of its handler.
  made_lem :
      (asked : HttpRequest) (db : Database) (body : String) (r : Reply Book × Database)
      → IsConsistent db
      → db.next_book_id < 2 ^ 31
      → IsGetBook matches db.next_book_id asked
      → IsMade db r
      → post_book bodies db body ≡ r
      → let (res, after) = pre_routing (changing (λ book. some (book_to_json book)) r) in
        res.status ≡ 201
        → serve bodies now matches asked after ≡ (record res { status = 200 }, after)
  made_lem asked db body (replied status b, after) h k g (s, i) e q =
      let found =
        get_book_by_id-post_book bodies db after body b h (e ∙ ap (λ n. (replied n b, after)) s) in
      serve-get_book asked after db.next_book_id k g
      ∙ ap (λ id. pre_routing (reading book_to_json after (get_book_by_id after (some id)))) (sym i)
      ∙ ap (λ reply. pre_routing (reading book_to_json after reply)) found
  made_lem asked db body (failed status message, after) h k g m e q = absurd (omega (arith, m, q))
  made_lem asked db body (thrown, after) h k g m e q = absurd m

  -- A client that made a book by `POST /books`, answered with 201, and then asks for `GET /books/{id}`
  -- under its id in decimal digits, gets 200 and the very JSON of the first response, and the database
  -- stays as it is, if it was consistent before and the id is in the range of `int`.
  pub serve-created_book :
      (made asked : HttpRequest) (db : Database)
      → IsConsistent db
      → db.next_book_id < 2 ^ 31
      → IsPostBook matches made
      → IsGetBook matches db.next_book_id asked
      → let (res, after) = serve bodies now matches made db in
        res.status ≡ 201
        → serve bodies now matches asked after ≡ (record res { status = 200 }, after)
  serve-created_book made asked db h k p g = rw (serve-post_book made db p) (
      made_lem asked db made.body (post_book bodies db made.body) h k g
        (post_book-IsMade db made.body) refl)
