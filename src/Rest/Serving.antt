-- ===== src/Rest/Serving.antt =====
-- What a request leaves of the database, whatever the route.
use architecture_course.Prelude.{
  All, nat_eq, string_eq, ◌≤◌, String, Option, List, [], ◌∷◌, ◌++◌, Bool, true, false, ◌≡◌, refl,
  arith, Reply, replied, failed, thrown, All, All-append,
}
use architecture_course.Prelude.Int.{ℤ, pos}
use architecture_course.Prelude.Map.{lookup, insert}
use architecture_course.Prelude.Json.{Json}
use architecture_course.Prelude.Http.{
  plain, Method, post, put, delete, HttpRequest, HttpResponse, Route, same_method, dispatch_keeps,
}
use architecture_course.Rest.Database.{Database, empty_database, add_book, add_author}
use architecture_course.Rest.Consistent.{
  Change, adds_author, adds_book, changes, changes-empty_database-IsConsistent, IsConsistent,
}
use architecture_course.Rest.Handlers.{Bodies, initial_database}
use architecture_course.Rest.Replies.{
  IsAtomic, post_book-IsAtomic, put_book-IsAtomic, post_author-IsAtomic, put_author-IsAtomic,
  remove_book-IsAtomic, remove_author-IsAtomic,
}
use architecture_course.Rest.Server.{
  fixed_routes, author_routes, book_routes, changing, pre_routing, path_id, routes, serve,
  serve_all,
}
use architecture_course.Rest.Kept.{
  post_book-IsConsistent, put_book-IsConsistent, post_author-IsConsistent, put_author-IsConsistent,
  remove_book-IsConsistent, remove_author-IsConsistent,
}

-- The methods that may change the database.
abbrev pub changes_data : Method → Bool
changes_data post = true
changes_data put = true
changes_data delete = true
changes_data _ = false

-- What a response comes with.
pub record IsServed (req : HttpRequest) (db : Database) (r : HttpResponse ℤ × Database)
    : Type 0 where
  pub consistent : IsConsistent db → IsConsistent r.1
  pub refused : 300 ≤ r.0.status → r.1 ≡ db
  pub reading : changes_data req.method ≡ false → r.1 ≡ db

module _ (req : HttpRequest) (db : Database) where
  kept-IsServed : (res : HttpResponse ℤ) → IsServed req db (res, db)
  kept-IsServed res = record { consistent = λ h. h; refused = λ h. refl; reading = λ h. refl }

  changing-IsServed {ℓ} :
      {A : Type ℓ} (content : A → Option (Json ℤ)) (reply : Reply A) (after : Database)
      → changes_data req.method ≡ true
      → (IsConsistent db → IsConsistent after)
      → IsAtomic db (reply, after)
      → IsServed req db (changing content (reply, after))
  changing-IsServed content (replied status a) after m c k = record {
    consistent = c;
    refused = λ h. absurd (omega (arith, h, k));
    reading = λ h. absurd (ground (arith, m, h));
  }
  changing-IsServed content (failed status message) after m c k = record {
    consistent = c;
    refused = λ h. k;
    reading = λ h. k;
  }
  changing-IsServed content thrown after m c k = record {
    consistent = c;
    refused = λ h. k;
    reading = λ h. k;
  }

  module _ {ℓ} {J : Type ℓ} (bodies : Bodies J) (now : ℤ) where
    abbrev IsServing : Route Database (HttpResponse ℤ) → Type 0
    IsServing r =
        (captured : List String)
        → same_method r.method req.method ≡ true
        → IsServed req db (r.handler req captured db)

    posts : same_method post req.method ≡ true → changes_data req.method ≡ true
    posts e = ground arith

    puts : same_method put req.method ≡ true → changes_data req.method ≡ true
    puts e = ground arith

    deletes : same_method delete req.method ≡ true → changes_data req.method ≡ true
    deletes e = ground arith

    book_routes-IsServed : All IsServing (book_routes bodies now)
    book_routes-IsServed = (
      λ c e. kept-IsServed _,
      (
        λ c e. kept-IsServed _,
        (
          λ c e.
              changing-IsServed _ _ _ (posts e) (post_book-IsConsistent bodies db req.body)
                (post_book-IsAtomic bodies db req.body),
          (
            λ c e.
                changing-IsServed _ _ _ (puts e)
                  (put_book-IsConsistent bodies db (path_id c) req.body)
                  (put_book-IsAtomic bodies db (path_id c) req.body),
            (
              λ c e.
                  changing-IsServed _ _ _ (deletes e) (remove_book-IsConsistent db (path_id c))
                    (remove_book-IsAtomic db (path_id c)),
              tt,
            ),
          ),
        ),
      ),
    )

    author_routes-IsServed : All IsServing (author_routes bodies now)
    author_routes-IsServed = (
      λ c e. kept-IsServed _,
      (
        λ c e. kept-IsServed _,
        (
          λ c e.
              changing-IsServed _ _ _ (posts e) (post_author-IsConsistent bodies db req.body)
                (post_author-IsAtomic bodies db req.body),
          (
            λ c e.
                changing-IsServed _ _ _ (puts e)
                  (put_author-IsConsistent bodies db (path_id c) req.body)
                  (put_author-IsAtomic bodies db (path_id c) req.body),
            (
              λ c e.
                  changing-IsServed _ _ _ (deletes e) (remove_author-IsConsistent db (path_id c))
                    (remove_author-IsAtomic db (path_id c)),
              tt,
            ),
          ),
        ),
      ),
    )

    routes-IsServed : All IsServing (routes bodies now)
    routes-IsServed = (
      λ c e. kept-IsServed _,
      All-append IsServing (book_routes bodies now)
          (author_routes bodies now ++ fixed_routes bodies now) book_routes-IsServed
          (All-append IsServing (author_routes bodies now) (fixed_routes bodies now)
            author_routes-IsServed (λ c e. kept-IsServed _, (λ c e. kept-IsServed _, tt))),
    )

    pre_routing-IsServed :
        (r : HttpResponse ℤ × Database) → IsServed req db r → IsServed req db (pre_routing r)
    pre_routing-IsServed (res, after) h = record {
      consistent = h.consistent;
      refused = h.refused;
      reading = h.reading;
    }

    -- Whatever a request asks for: if the database was consistent, it is so after; a response with a
    -- status of 300 or more comes with the database as it was, and so does every response to a method
    -- other than POST, PUT and DELETE.
    pub serve-IsServed :
        (matches : String → String → Option (List String))
        → IsServed req db (serve bodies now matches req db)
    unfolding serve
    serve-IsServed matches = pre_routing-IsServed _ (
        dispatch_keeps matches (plain 404) (IsServed req db) (routes bodies now) req db
          (kept-IsServed _) routes-IsServed)

-- The calls that `main` makes before it serves.
abbrev pub first_calls : List Change
first_calls =
    adds_author "Лев" "Толстой" "1828-09-09"
    ∷ adds_author "Фёдор" "Достоевский" "1821-11-11"
    ∷ adds_author "Айзек" "Азимов" "1920-01-02"
    ∷ adds_book "Война и мир" "Роман" (pos 1869) 1
    ∷ adds_book "Анна Каренина" "Роман" (pos 1877) 1
    ∷ adds_book "Преступление и наказание" "Роман" (pos 1866) 2
    ∷ adds_book "Идиот" "Роман" (pos 1869) 2
    ∷ adds_book "Я, робот" "Фантастика" (pos 1950) 3
    ∷ adds_book "Основание" "Фантастика" (pos 1951) 3
    ∷ []

initial_calls : changes empty_database first_calls ≡ initial_database
unfolding changes initial_database empty_database add_author add_book lookup insert
initial_calls = refl

pub initial-IsConsistent : IsConsistent initial_database
initial-IsConsistent = rw (← initial_calls) (changes-empty_database-IsConsistent first_calls)

module _ {ℓ} {J : Type ℓ} (bodies : Bodies J) (now : ℤ)
    (matches : String → String → Option (List String)) where
  serve_all-IsConsistent :
      (reqs : List HttpRequest) (db : Database)
      → IsConsistent db
      → IsConsistent (serve_all bodies now matches reqs db)
  unfolding serve_all
  serve_all-IsConsistent [] db h = h
  serve_all-IsConsistent (req ∷ reqs) db h =
      serve_all-IsConsistent reqs (serve bodies now matches req db).1
        ((serve-IsServed req db bodies now matches).consistent h)

  -- After any requests to the server as it starts, every author and book has its key as its id, a
  -- positive number below the counter, and the author of every book is in the database.
  pub serve_all-initial_database :
      (reqs : List HttpRequest) → IsConsistent (serve_all bodies now matches reqs initial_database)
  serve_all-initial_database reqs =
      serve_all-IsConsistent reqs initial_database initial-IsConsistent
