-- ===== src/Rest/Kept.antt =====
-- Every handler that changes the database keeps it consistent.
use architecture_course.Prelude.{
  nat_eq, string_eq, ℕ, String, Option, none, some, Bool, true, false, ◌||◌, Bool-cases,
  Option-cases, inl, inr, is_empty, if◌then◌else◌,
}
use architecture_course.Prelude.Int.{pos, ltb_ℤ}
use architecture_course.Prelude.Map.{contains}
use architecture_course.Rest.Database.{Database, add_book}
use architecture_course.Rest.Consistent.{
  IsConsistent, add_author-IsConsistent, update_author-IsConsistent, delete_author-IsConsistent,
  add_book-IsConsistent, update_book-IsConsistent, delete_book-IsConsistent,
}
use architecture_course.Rest.Handlers.{
  Bodies, post_book, put_book, post_author, put_author, remove_book, remove_author, read_book,
  read_author,
}

-- Both branches come with the same database.
if-IsConsistent {ℓ} :
    {A : Type ℓ} (b : Bool) (x y : A) (after : Database)
    → IsConsistent after
    → IsConsistent (if◌then◌else◌ {A = A × Database} b (x, after) (y, after)).1
if-IsConsistent true x y after h = h
if-IsConsistent false x y after h = h

pub remove_book-IsConsistent :
    (db : Database) (id : Option ℕ) → IsConsistent db → IsConsistent (remove_book db id).1
unfolding remove_book
remove_book-IsConsistent db none h = h
remove_book-IsConsistent db (some id) h = if-IsConsistent _ _ _ _ (delete_book-IsConsistent db id h)

pub remove_author-IsConsistent :
    (db : Database) (id : Option ℕ) → IsConsistent db → IsConsistent (remove_author db id).1
unfolding remove_author
remove_author-IsConsistent db none h = h
remove_author-IsConsistent db (some id) h =
    if-IsConsistent _ _ _ _ (delete_author-IsConsistent db id h)

module _ {ℓ} {J : Type ℓ} (bodies : Bodies J) (db : Database) where
  pub post_book-IsConsistent :
      (body : String) → IsConsistent db → IsConsistent (post_book bodies db body).1
  unfolding post_book add_book
  post_book-IsConsistent body h = elim (Option-cases (bodies.parse body)) [
    | inl p ↦ rw (post_book, p) h
    | inr (j, p) ↦ elim (Option-cases (read_book bodies j)) [
      | inl q ↦ rw (post_book, p, q) h
      | inr (f, q) ↦
          let added = add_book-IsConsistent db f.title f.genre f.year f.author_id h in
          elim (Bool-cases (is_empty f.title || is_empty f.genre || ltb_ℤ f.year (pos 0))) [
            | inl bad ↦ rw (post_book, p, q, bad) h
            | inr good ↦ elim (Bool-cases (contains f.author_id db.authors)) [
              | inl known ↦ rw (post_book, p, q, good, known) (rw known at added)
              | inr unknown ↦ rw (post_book, p, q, good, unknown) (rw unknown at added)
            ]
          ]
    ]
  ]

  pub put_book-IsConsistent :
      (id : Option ℕ) (body : String)
      → IsConsistent db
      → IsConsistent (put_book bodies db id body).1
  unfolding put_book
  put_book-IsConsistent none body h = h
  put_book-IsConsistent (some id) body h = elim (Option-cases (bodies.parse body)) [
    | inl p ↦ rw (put_book, p) h
    | inr (j, p) ↦ elim (Option-cases (read_book bodies j)) [
      | inl q ↦ rw (put_book, p, q) h
      | inr (f, q) ↦
          rw (put_book, p, q)
            (if-IsConsistent _ _ _ _
              (update_book-IsConsistent db id f.title f.genre f.year f.author_id h))
    ]
  ]

  pub post_author-IsConsistent :
      (body : String) → IsConsistent db → IsConsistent (post_author bodies db body).1
  unfolding post_author
  post_author-IsConsistent body h = elim (Option-cases (bodies.parse body)) [
    | inl p ↦ rw (post_author, p) h
    | inr (j, p) ↦ elim (Option-cases (read_author bodies j)) [
      | inl q ↦ rw (post_author, p, q) h
      | inr (f, q) ↦ elim (Bool-cases (is_empty f.first_name || is_empty f.last_name)) [
        | inl bad ↦ rw (post_author, p, q, bad) h
        | inr good ↦
            rw (post_author, p, q, good)
              (add_author-IsConsistent db f.first_name f.last_name f.dob h)
      ]
    ]
  ]

  pub put_author-IsConsistent :
      (id : Option ℕ) (body : String)
      → IsConsistent db
      → IsConsistent (put_author bodies db id body).1
  unfolding put_author
  put_author-IsConsistent none body h = h
  put_author-IsConsistent (some id) body h = elim (Option-cases (bodies.parse body)) [
    | inl p ↦ rw (put_author, p) h
    | inr (j, p) ↦ elim (Option-cases (read_author bodies j)) [
      | inl q ↦ rw (put_author, p, q) h
      | inr (f, q) ↦
          rw (put_author, p, q)
            (if-IsConsistent _ _ _ _
              (update_author-IsConsistent db id f.first_name f.last_name f.dob h))
    ]
  ]
