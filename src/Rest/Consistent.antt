-- ===== src/Rest/Consistent.antt =====
-- What every sequence of calls keeps of the database.
use architecture_course.Prelude.{
  nat_beq, nat_eq, nat_beq_iff, ℕ, String, some, List, [], ◌∷◌, true, false, ◌≡◌, ◌<◌, refl, arith,
  Bool-cases, Option-cases, inl, inr,
}
use architecture_course.Prelude.Int.{ℤ}
use architecture_course.Prelude.Map.{Map, lookup, insert, contains}
use architecture_course.Prelude.Map.Laws.{
  Each, Each-insert, Each-erase, Each-map, Each-nil, contains-insert, lookup-erase,
}
use architecture_course.Rest.Database.{
  Author, Book, Database, empty_database, add_author, update_author, has_book, delete_author,
  add_book, update_book, delete_book,
}

pub record IsAuthor (next key : ℕ) (a : Author) : Type 0 where
  pub id : a.id ≡ key
  pub fresh : key < next
  pub positive : 0 < key

pub record IsBook (authors : Map ℕ Author) (next key : ℕ) (b : Book) : Type 0 where
  pub id : b.id ≡ key
  pub fresh : key < next
  pub positive : 0 < key
  pub author : contains b.author_id authors ≡ true

-- The ids of both maps are their keys, positive and below the counters, and the author of every book
-- is there.
pub record IsConsistent (db : Database) : Type 0 where
  pub authors : Each (IsAuthor db.next_author_id) db.authors
  pub books : Each (IsBook db.authors db.next_book_id) db.books
  pub first_author : 0 < db.next_author_id
  pub first_book : 0 < db.next_book_id

pub empty_database-IsConsistent : IsConsistent empty_database
unfolding empty_database
empty_database-IsConsistent = record {
  authors = Each-nil;
  books = Each-nil;
  first_author = omega arith;
  first_book = omega arith;
}

-- More authors, or the same ones with other names, keep the books.
books_with_authors :
    (k : ℕ) (a : Author) (authors : Map ℕ Author) (next : ℕ) (books : Map ℕ Book)
    → Each (IsBook authors next) books
    → Each (IsBook (insert k a authors) next) books
books_with_authors k a authors next books h =
    Each-map
      (λ key b x. record {
        id = x.id;
        fresh = x.fresh;
        positive = x.positive;
        author = contains-insert k b.author_id a authors x.author;
      })
      h

pub add_author-IsConsistent :
    (db : Database) (f l d : String) → IsConsistent db → IsConsistent (add_author db f l d).1
unfolding add_author
add_author-IsConsistent db f l d h = record {
  authors =
      Each-insert db.next_author_id _
        (record { id = refl; fresh = omega arith; positive = h.first_author })
        (Each-map
          (λ key a x. record { id = x.id; fresh = omega (arith, x.fresh); positive = x.positive })
          h.authors);
  books = books_with_authors db.next_author_id _ db.authors db.next_book_id db.books h.books;
  first_author = omega arith;
  first_book = h.first_book;
}

pub update_author-IsConsistent :
    (db : Database) (id : ℕ) (f l d : String)
    → IsConsistent db
    → IsConsistent (update_author db id f l d).1
unfolding update_author
update_author-IsConsistent db id f l d h = elim (Option-cases (lookup id db.authors)) [
  | inl e ↦ rw (e, update_author) h
  | inr (a, e) ↦
      let x = h.authors.at id a e in
      rw (e, update_author)
        (record {
          authors =
              Each-insert id _ (record { id = x.id; fresh = x.fresh; positive = x.positive })
                h.authors;
          books = books_with_authors id _ db.authors db.next_book_id db.books h.books;
          first_author = h.first_author;
          first_book = h.first_book;
        })
]

-- The loop of `deleteAuthor` finds every book of the author.
pub has_book-lookup :
    (id k : ℕ) (b : Book) (books : Map ℕ Book)
    → has_book id books ≡ false
    → lookup k books ≡ some b
    → nat_beq b.author_id id ≡ false
unfolding has_book lookup
has_book-lookup id k b [] e f = cc
has_book-lookup id k b ((j, c) ∷ rest) e f = elim (Bool-cases (nat_beq j k)) [
  | inl hit ↦ ground arith
  | inr miss ↦ has_book-lookup id k b rest (ground arith) (rw (miss, lookup) at f)
]

pub delete_author-IsConsistent :
    (db : Database) (id : ℕ) → IsConsistent db → IsConsistent (delete_author db id).1
unfolding delete_author
delete_author-IsConsistent db id h = elim (Bool-cases (has_book id db.books)) [
  | inl b ↦ rw b h
  | inr b ↦ rw b (record {
    authors = Each-erase id h.authors;
    books = record {
      at = λ k x e.
          let q = h.books.at k x e in
          record {
            id = q.id;
            fresh = q.fresh;
            positive = q.positive;
            author = ground (
              arith,
              lookup-erase id x.author_id db.authors,
              has_book-lookup id k x db.books b e,
              nat_beq_iff id x.author_id,
              nat_beq_iff x.author_id id,
              q.author,
            );
          };
    };
    first_author = h.first_author;
    first_book = h.first_book;
  })
]

pub add_book-IsConsistent :
    (db : Database) (title genre : String) (year : ℤ) (author_id : ℕ)
    → IsConsistent db
    → IsConsistent (add_book db title genre year author_id).1
unfolding add_book
add_book-IsConsistent db title genre year author_id h =
    elim (Bool-cases (contains author_id db.authors)) [
      | inr b ↦ rw b h
      | inl b ↦ rw b (record {
        authors = h.authors;
        books =
            Each-insert db.next_book_id _
              (record { id = refl; fresh = omega arith; positive = h.first_book; author = b })
              (Each-map
                (λ k x q. record {
                  id = q.id;
                  fresh = omega (arith, q.fresh);
                  positive = q.positive;
                  author = q.author;
                })
                h.books);
        first_author = h.first_author;
        first_book = omega arith;
      })
    ]

pub update_book-IsConsistent :
    (db : Database) (id : ℕ) (title genre : String) (year : ℤ) (author_id : ℕ)
    → IsConsistent db
    → IsConsistent (update_book db id title genre year author_id).1
unfolding update_book
update_book-IsConsistent db id title genre year author_id h =
    elim (Bool-cases (contains author_id db.authors)) [
      | inr b ↦ rw b h
      | inl b ↦ elim (Option-cases (lookup id db.books)) [
        | inl e ↦ rw (b, e, update_book) h
        | inr (x, e) ↦
            let q = h.books.at id x e in
            rw (b, e, update_book)
              (record {
                authors = h.authors;
                books =
                    Each-insert id _
                      (record { id = q.id; fresh = q.fresh; positive = q.positive; author = b })
                      h.books;
                first_author = h.first_author;
                first_book = h.first_book;
              })
      ]
    ]

pub delete_book-IsConsistent :
    (db : Database) (id : ℕ) → IsConsistent db → IsConsistent (delete_book db id).1
unfolding delete_book
delete_book-IsConsistent db id h = record {
  authors = h.authors;
  books = Each-erase id h.books;
  first_author = h.first_author;
  first_book = h.first_book;
}

-- The calls that change the database.
pub data Change : Type 0 where
  adds_author : (first_name last_name dob : String) → Change
  updates_author : (id : ℕ) (first_name last_name dob : String) → Change
  deletes_author : (id : ℕ) → Change
  adds_book : (title genre : String) (year : ℤ) (author_id : ℕ) → Change
  updates_book : (id : ℕ) (title genre : String) (year : ℤ) (author_id : ℕ) → Change
  deletes_book : (id : ℕ) → Change

unfoldable pub change : Database → Change → Database
change db (adds_author f l d) = (add_author db f l d).1
change db (updates_author id f l d) = (update_author db id f l d).1
change db (deletes_author id) = (delete_author db id).1
change db (adds_book t g y a) = (add_book db t g y a).1
change db (updates_book id t g y a) = (update_book db id t g y a).1
change db (deletes_book id) = (delete_book db id).1

unfoldable pub changes : Database → List Change → Database
unfolding change
changes db [] = db
changes db (c ∷ cs) = changes (change db c) cs

change-IsConsistent : (db : Database) (c : Change) → IsConsistent db → IsConsistent (change db c)
unfolding change
change-IsConsistent db (adds_author f l d) h = add_author-IsConsistent db f l d h
change-IsConsistent db (updates_author id f l d) h = update_author-IsConsistent db id f l d h
change-IsConsistent db (deletes_author id) h = delete_author-IsConsistent db id h
change-IsConsistent db (adds_book t g y a) h = add_book-IsConsistent db t g y a h
change-IsConsistent db (updates_book id t g y a) h = update_book-IsConsistent db id t g y a h
change-IsConsistent db (deletes_book id) h = delete_book-IsConsistent db id h

changes-IsConsistent :
    (db : Database) (cs : List Change) → IsConsistent db → IsConsistent (changes db cs)
unfolding changes
changes-IsConsistent db [] h = h
changes-IsConsistent db (c ∷ cs) h =
    changes-IsConsistent (change db c) cs (change-IsConsistent db c h)

-- After any calls on an empty database, every author and book has its key as its id, a positive number
-- below the counter, and the author of every book is in the database.
pub changes-empty_database-IsConsistent :
    (cs : List Change) → IsConsistent (changes empty_database cs)
changes-empty_database-IsConsistent cs =
    changes-IsConsistent empty_database cs empty_database-IsConsistent
