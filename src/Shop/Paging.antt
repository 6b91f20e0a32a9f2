-- ===== src/Shop/Paging.antt =====
-- The pages of `GetAllProducts`, read one after the other (src/grpc_server/in_memory_storage.cpp).
use native.Mathlib.Nat.{suc-mul, zero-mul}
use architecture_course.Prelude.Double.{Double}
use architecture_course.Prelude.{
  ℕ, zero, suc, ◌+◌, ◌-◌, ◌*◌, ◌≤◌, ◌<◌, min, ◌≡◌, sym, ap, ◌∙◌, ◌⊎◌, inl, inr, List, [], ◌++◌, map,
  refl, not, ◌&&◌, Bool-cases, leb, arith, length, take, drop, keep_if, length-drop,
}
use architecture_course.Prelude.Ranges.{take_all, take-append, take_same, drop_all}
use architecture_course.Prelude.Map.{values}
use architecture_course.Prelude.Int.{pos}
use architecture_course.Shop.Types.{
  paginate, Pagination, Product, ProductData, ProductFilter, InMemoryStorage,
}
use architecture_course.Shop.Storage.{get_all_products}

-- The end of a page is `limit` further, or at the end of the list.
page_end :
    (start limit size left : ℕ)
    → left ≡ size - start
    → let m = min size (start + limit) - start in (m ≡ limit) ⊎ ((left ≤ m) × (left ≤ limit))
page_end start limit size left e = elim (Bool-cases (leb (start + limit) size)) [
  | inl h ↦ inl (grind arith)
  | inr h ↦ inr (grind arith, grind arith)
]

abbrev pub page : ℕ → ℕ → Pagination
page limit offset = record { limit = pos limit; offset = pos offset }

module _ {ℓ} {A : Type ℓ} where
  -- A page with a positive limit is a range of the list.
  pub paginate_lem :
      (start limit : ℕ) (xs : List A)
      → 0 < limit
      → paginate (page limit start) xs ≡ take limit (drop start xs)
  unfolding paginate
  paginate_lem start limit xs h = elim (Bool-cases (leb (length xs) start)) [
    | inl past ↦ rw (past, drop_all start xs (ground arith)) (sym (take_all limit [] (omega arith)))
    | inr within ↦ elim (Bool-cases (leb limit 0)) [
      | inl none_left ↦ absurd (ground arith)
      | inr some_left ↦
          rw (within, some_left)
            (take_same _ limit (drop start xs)
              (page_end start limit (length xs) (length (drop start xs)) (length-drop start xs)))
    ]
  ]

  -- The first `n` pages, one after the other.
  abbrev pub pages_of : ℕ → ℕ → List A → List A
  pages_of zero limit xs = []
  pages_of (suc n) limit xs = pages_of n limit xs ++ paginate (page limit (n * limit)) xs

  pages_of_lem : (n limit : ℕ) (xs : List A) → 0 < limit → pages_of n limit xs ≡ take (n * limit) xs
  pages_of_lem zero limit xs h = ap (λ k. take k xs) (sym (zero-mul limit))
  pages_of_lem (suc n) limit xs h =
      ap (λ l. l ++ paginate (page limit (n * limit)) xs) (pages_of_lem n limit xs h)
      ∙ ap (λ l. take (n * limit) xs ++ l) (paginate_lem (n * limit) limit xs h)
      ∙ sym (take-append (n * limit) limit xs)
      ∙ ap (λ k. take k xs) (sym (suc-mul n limit))

module _ {ℓ} {W : Type ℓ} where
  -- The products that are not above the filter's price, in the order in which the storage is read; a price
  -- that is not above 0 leaves out none.
  abbrev pub affordable : ⦃d : Double W⦄ → InMemoryStorage W → ProductFilter W → List (Product W)
  affordable ⦃d⦄ s filter =
      keep_if
        (λ (p : Product W). not (d.lt d.nought filter.max_price && d.lt filter.max_price p.price))
        (map (λ (x : ProductData W). x.product) (values s.products))

  -- The first `n` answers for a filter, at the offsets 0, `limit`, `2 * limit` and so on.
  abbrev pub product_pages :
      ⦃d : Double W⦄ → InMemoryStorage W → ProductFilter W → ℕ → ℕ → List (Product W)
  product_pages s filter zero limit = []
  product_pages s filter (suc n) limit =
      product_pages s filter n limit ++ get_all_products s filter (page limit (n * limit))

  product_pages_same :
      ⦃d : Double W⦄ (s : InMemoryStorage W) (filter : ProductFilter W) (n limit : ℕ)
      → product_pages s filter n limit ≡ pages_of n limit (affordable s filter)
  unfolding get_all_products
  product_pages_same s filter zero limit = refl
  product_pages_same s filter (suc n) limit =
      ap (λ l. l ++ paginate (page limit (n * limit)) (affordable s filter))
        (product_pages_same s filter n limit)

  -- For a positive limit, the answers at the offsets 0, `limit`, up to `(n - 1) * limit`, one after the
  -- other, are the first `n * limit` of the products that are not above the filter's price, in the
  -- order in which the storage is read.
  pub product_pages_lem :
      ⦃d : Double W⦄ (s : InMemoryStorage W) (filter : ProductFilter W) (n limit : ℕ)
      → 0 < limit
      → product_pages s filter n limit ≡ take (n * limit) (affordable s filter)
  product_pages_lem s filter n limit h =
      product_pages_same s filter n limit ∙ pages_of_lem n limit (affordable s filter) h
