-- ===== src/Rest/Replies.antt =====
-- What the handlers answer, and what they leave in the database.
use architecture_course.Prelude.Int.{pos, ltb_ℤ}
use mathlib.Core.Path.{subst₂}
use architecture_course.Prelude.{
  thrown, failed, Reply, replied, [], ◌∷◌, count_if, ◌||◌, is_empty, ◌<◌, nat_eq, string_eq, ℕ,
  String, Option, none, some, true, false, ◌≡◌, refl, inl, inr, ◌↔◌, arith, Bool-cases,
  Option-cases, ◌==◌, nat_beq_iff,
}
use architecture_course.Prelude.Map.{Map, values, lookup, contains}
use architecture_course.Prelude.Map.Laws.{lookup-insert_self, erase_absent}
use architecture_course.Rest.Database.{
  get_book_count_for_author, Book, Database, update_author, has_book, delete_author, add_book,
  get_book, update_book, delete_book,
}
use architecture_course.Rest.Consistent.{IsConsistent}
use architecture_course.Rest.Handlers.{
  Bodies, get_book_by_id, post_book, put_book, post_author, put_author, remove_book, remove_author,
  read_book,
}

-- A reply that is not a success comes with the database as it was, if the handler sends one at all.
abbrev pub IsAtomic {ℓ} : {A : Type ℓ} → Database → Reply A × Database → Type 0
IsAtomic db (replied status a, after) = status < 300
IsAtomic db (failed status message, after) = after ≡ db
IsAtomic db (thrown, after) = after ≡ db

pub remove_book-IsAtomic : (db : Database) (id : Option ℕ) → IsAtomic db (remove_book db id)
unfolding remove_book delete_book
remove_book-IsAtomic db none = refl
remove_book-IsAtomic db (some id) = elim (Option-cases (lookup id db.books)) [
  | inl e ↦ rw (e, erase_absent id db.books e) refl
  | inr (x, e) ↦ rw e (omega arith)
]

pub remove_author-IsAtomic : (db : Database) (id : Option ℕ) → IsAtomic db (remove_author db id)
unfolding remove_author delete_author
remove_author-IsAtomic db none = refl
remove_author-IsAtomic db (some id) = elim (Bool-cases (has_book id db.books)) [
  | inl b ↦ rw b refl
  | inr b ↦ elim (Option-cases (lookup id db.authors)) [
    | inl e ↦ rw (b, e, erase_absent id db.authors e) refl
    | inr (x, e) ↦ rw (b, e) (omega arith)
  ]
]

module _ {ℓ} {J : Type ℓ} (bodies : Bodies J) (db : Database) where
  pub post_book-IsAtomic : (body : String) → IsAtomic db (post_book bodies db body)
  unfolding post_book add_book
  post_book-IsAtomic body = ground arith

  pub put_book-IsAtomic : (id : Option ℕ) (body : String) → IsAtomic db (put_book bodies db id body)
  unfolding put_book update_book
  put_book-IsAtomic none body = refl
  put_book-IsAtomic (some id) body = ground arith

  pub post_author-IsAtomic : (body : String) → IsAtomic db (post_author bodies db body)
  unfolding post_author
  post_author-IsAtomic body = ground arith

  pub put_author-IsAtomic :
      (id : Option ℕ) (body : String) → IsAtomic db (put_author bodies db id body)
  unfolding put_author update_author
  put_author-IsAtomic none body = refl
  put_author-IsAtomic (some id) body = ground arith

  -- Each of the six handlers that change the database leaves it as it was, unless it answers with a
  -- status of success, below 300.
  pub handlers-IsAtomic :
      (id : Option ℕ) (body : String)
      → (IsAtomic db (post_book bodies db body)
          × IsAtomic db (put_book bodies db id body)
          × IsAtomic db (remove_book db id))
        × IsAtomic db (post_author bodies db body)
        × IsAtomic db (put_author bodies db id body)
        × IsAtomic db (remove_author db id)
  handlers-IsAtomic id body = (
    (post_book-IsAtomic body, put_book-IsAtomic id body, remove_book-IsAtomic db id),
    post_author-IsAtomic body,
    put_author-IsAtomic id body,
    remove_author-IsAtomic db id,
  )

-- A stored book is found under its id.
get_stored_book :
    (db : Database) (id : ℕ) (b : Book)
    → 0 < id
    → b.id ≡ id
    → lookup id db.books ≡ some b
    → get_book_by_id db (some id) ≡ replied 200 b
unfolding get_book_by_id get_book
get_stored_book db id b z e f = rw f (ground (arith, nat_beq_iff b.id 0))

-- Equal replies to a creation hold the same book and come with the same database.
same_creation :
    (b c : Book) (after next : Database)
    → ◌≡◌ {A = Reply Book × Database} (replied 201 b, after) (replied 201 c, next)
    → get_book_by_id after (some b.id) ≡ replied 200 b
    → get_book_by_id next (some c.id) ≡ replied 200 c
same_creation b c after next e g =
    let same : b ≡ c = cc in
    let later : after ≡ next = cc in
    subst₂ (λ x y. get_book_by_id y (some x.id) ≡ replied 200 x) same later g

-- A book whose creation was answered with 201 is what `GET` then answers under its id, if the database
-- was consistent.
pub get_book_by_id-post_book {ℓ} :
    {J : Type ℓ} (bodies : Bodies J) (db after : Database) (body : String) (b : Book)
    → IsConsistent db
    → post_book bodies db body ≡ (replied 201 b, after)
    → get_book_by_id after (some b.id) ≡ replied 200 b
unfolding post_book add_book
get_book_by_id-post_book bodies db after body b h e = elim (Option-cases (bodies.parse body)) [
  | inl p ↦ absurd (ground arith)
  | inr (j, p) ↦ elim (Option-cases (read_book bodies j)) [
    | inl q ↦ absurd (ground arith)
    | inr (f, q) ↦ elim (Bool-cases (contains f.author_id db.authors)) [
      | inr unknown ↦ absurd (ground arith)
      | inl known ↦
          elim (Bool-cases (is_empty f.title || is_empty f.genre || ltb_ℤ f.year (pos 0))) [
            | inl bad ↦ absurd (ground arith)
            | inr good ↦
                same_creation _ b _ after (rw (p, post_book, q, good, known) at e)
                  (get_stored_book _ db.next_book_id _ h.first_book refl (lookup-insert_self _ _ _))
          ]
    ]
  ]
]

-- The loop of `deleteAuthor` against the count of `getBookCountForAuthor`.
has_book-count_if :
    (id : ℕ) (books : Map ℕ Book)
    → (has_book id books ≡ false) ↔ (count_if (λ (b : Book). b.author_id == id) (values books) ≡ 0)
unfolding has_book values
has_book-count_if id [] = (λ _. refl, λ _. refl)
has_book-count_if id ((k, b) ∷ rest) = ground (arith, has_book-count_if id rest)

-- `DELETE` of an author is answered with 204 exactly if the author is stored and the database counts no
-- book of the author.
pub remove_author_lem :
    (db : Database) (id : ℕ)
    → ((remove_author db (some id)).0 ≡ replied 204 tt)
      ↔ ((contains id db.authors ≡ true) × (get_book_count_for_author db id ≡ 0))
unfolding remove_author delete_author get_book_count_for_author
remove_author_lem db id = ground (arith, has_book-count_if id db.books)
