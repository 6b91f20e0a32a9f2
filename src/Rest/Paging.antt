-- ===== src/Rest/Paging.antt =====
-- The pages of the listings of books.
use architecture_course.Prelude.Ranges.{take_all, take-append, take_same, drop_all}
use architecture_course.Prelude.Map.{values}
use native.Mathlib.Nat.{suc-mul, zero-mul, add-mul-mod_self_left}
use architecture_course.Prelude.{
  string_eq, ◌==◌, ◌||◌, is_empty, keep_if, ◌⊎◌, ℕ, zero, suc, ◌+◌, ◌-◌, ◌*◌, ◌^◌, ◌≤◌, ◌<◌, List,
  [], ◌++◌, ◌≡◌, refl, sym, ◌∙◌, ap, arith, Bool-cases, inl, inr, length, take, drop, length-drop,
  leb, min, String,
}
use architecture_course.Prelude.Int.{◌+ℤ◌, pos_part, pos, ◌-ℤ◌, ◌*ℤ◌}
use architecture_course.Rest.Database.{
  Book, Database, window, range_from, to_int, get_filtered_and_paginated_books,
}

-- The position of a page, before it is brought into range.
pos-minus_one : (n : ℕ) → (pos (suc n) -ℤ pos 1) ≡ pos n
pos-minus_one n = ground arith

pos-times : (n limit : ℕ) → (pos n *ℤ pos limit) ≡ pos (n * limit)
pos-times n limit = ground arith

page_offset : (n limit : ℕ) → ((pos (suc n) -ℤ pos 1) *ℤ pos limit) ≡ pos (n * limit)
page_offset n limit = ap (λ z. z *ℤ pos limit) (pos-minus_one n) ∙ pos-times n limit

to_int-pos : (n : ℕ) → n < 2 ^ 31 → to_int (pos n) ≡ pos n
to_int-pos n h = ground arith

-- A product that is greater by a multiple of 2^32 is the same `int`.
to_int_periodic : (n k : ℕ) → to_int (pos (n + 2 ^ 32 * k)) ≡ to_int (pos n)
to_int_periodic n k = rw (add-mul-mod_self_left n (2 ^ 32) k) refl

offset_later : (n k : ℕ) → (n + 2 ^ 30) * (4 * k) ≡ n * (4 * k) + 2 ^ 32 * k
offset_later n k = grind arith

-- The end of a range is `limit` further, or at the end of the list.
range_end :
    (start limit size left : ℕ)
    → left ≡ size - start
    → let m = min (pos_part (pos start +ℤ pos limit)) size - start in
      (m ≡ limit) ⊎ ((left ≤ m) × (left ≤ limit))
range_end start limit size left e = elim (Bool-cases (leb (start + limit) size)) [
  | inl h ↦ inl (grind arith)
  | inr h ↦ inr (grind arith, grind arith)
]

module _ {ℓ} {A : Type ℓ} where
  range_from_lem :
      (start limit : ℕ) (xs : List A) → range_from start (pos limit) xs ≡ take limit (drop start xs)
  unfolding range_from
  range_from_lem start limit xs = elim (Bool-cases (leb (length xs) start)) [
    | inl past ↦ rw (past, drop_all start xs (ground arith)) (sym (take_all limit [] (omega arith)))
    | inr within ↦ rw within (
        take_same _ limit (drop start xs)
          (range_end start limit (length xs) (length (drop start xs)) (length-drop start xs)))
  ]

  -- A page from within the range of `int` is a range of the list.
  pub window_lem :
      (n limit : ℕ) (xs : List A)
      → n * limit < 2 ^ 31
      → window (pos (suc n)) (pos limit) xs ≡ take limit (drop (n * limit) xs)
  unfolding window
  window_lem n limit xs h =
      rw (page_offset n limit, to_int-pos (n * limit) h) (range_from_lem (n * limit) limit xs)

  window_repeats :
      (n k : ℕ) (xs : List A)
      → window (pos (suc (n + 2 ^ 30))) (pos (4 * k)) xs ≡ window (pos (suc n)) (pos (4 * k)) xs
  unfolding window
  window_repeats n k xs =
      ap (λ z. range_from (pos_part (to_int z)) (pos (4 * k)) xs)
        (page_offset (n + 2 ^ 30) (4 * k) ∙ ap pos (offset_later n k))
      ∙ ap (λ z. range_from (pos_part z) (pos (4 * k)) xs) (to_int_periodic (n * (4 * k)) k)
      ∙ ap (λ z. range_from (pos_part (to_int z)) (pos (4 * k)) xs) (sym (page_offset n (4 * k)))

  -- The first `n` pages, one after the other.
  abbrev pub pages : ℕ → ℕ → List A → List A
  pages zero limit xs = []
  pages (suc n) limit xs = pages n limit xs ++ window (pos (suc n)) (pos limit) xs

  pages_lem :
      (n limit : ℕ) (xs : List A) → n * limit < 2 ^ 31 → pages n limit xs ≡ take (n * limit) xs
  pages_lem zero limit xs h = ap (λ k. take k xs) (sym (zero-mul limit))
  pages_lem (suc n) limit xs h =
      let split : suc n * limit ≡ n * limit + limit = suc-mul n limit in
      ap (λ l. l ++ window (pos (suc n)) (pos limit) xs)
        (pages_lem n limit xs (omega (arith, split)))
      ∙ ap (λ l. take (n * limit) xs ++ l) (window_lem n limit xs (omega (arith, split)))
      ∙ sym (take-append (n * limit) limit xs)
      ∙ ap (λ k. take k xs) (sym split)

-- The books of a genre, or all of them, in the order of their ids.
abbrev pub books_of : Database → String → List Book
books_of db genre = keep_if (λ (b : Book). is_empty genre || b.genre == genre) (values db.books)

-- The first `n` pages of a listing, one after the other.
abbrev pub listing_pages : Database → String → ℕ → ℕ → List Book
listing_pages db genre zero limit = []
listing_pages db genre (suc n) limit =
    listing_pages db genre n limit
    ++ get_filtered_and_paginated_books db genre (pos (suc n)) (pos limit)

listing_pages_same :
    (db : Database) (genre : String) (n limit : ℕ)
    → listing_pages db genre n limit ≡ pages n limit (books_of db genre)
unfolding get_filtered_and_paginated_books
listing_pages_same db genre zero limit = refl
listing_pages_same db genre (suc n) limit =
    ap (λ l. l ++ window (pos (suc n)) (pos limit) (books_of db genre))
      (listing_pages_same db genre n limit)

-- As long as the positions are in the range of `int`, the first `n` pages of a listing, one after the
-- other, are the first `n * limit` books of the genre (of all books for an empty genre).
pub listing_pages_lem :
    (db : Database) (genre : String) (n limit : ℕ)
    → n * limit < 2 ^ 31
    → listing_pages db genre n limit ≡ take (n * limit) (books_of db genre)
listing_pages_lem db genre n limit h =
    listing_pages_same db genre n limit ∙ pages_lem n limit (books_of db genre) h

-- Beyond that range pages repeat: the page 2^30 further shows the same books, for every limit that is
-- divisible by four, since the product of page and limit overflows an `int`.
pub listing_repeats :
    (db : Database) (genre : String) (n k : ℕ)
    → get_filtered_and_paginated_books db genre (pos (suc (n + 2 ^ 30))) (pos (4 * k))
      ≡ get_filtered_and_paginated_books db genre (pos (suc n)) (pos (4 * k))
unfolding get_filtered_and_paginated_books
listing_repeats db genre n k = window_repeats n k (books_of db genre)
