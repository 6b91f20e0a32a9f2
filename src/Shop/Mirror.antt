-- ===== src/Shop/Mirror.antt =====
-- The stored messages agree with the lists that the storage keeps beside them.
use architecture_course.Prelude.{
  string_eq, String, List, [], ◌∷◌, ◌++◌, ◌≡◌, refl, ap, is_empty, arith, Bool-cases, Option-cases,
  inl, inr, has,
}
use architecture_course.Prelude.Map.{Map, lookup}
use architecture_course.Prelude.Map.Laws.{Each, Each-insert, Each-erase, Each-nil}
use architecture_course.Shop.Types.{
  Product, Category, ProductData, CategoryData, InMemoryStorage, empty_storage,
}
use architecture_course.Shop.Calls.{
  Call, adds_product, edits_product, adds_category, edits_category, deletes_product,
  deletes_category, attaches, detaches, step, run,
}
use architecture_course.Shop.Storage.{
  add_product, edit_product, forget_product, delete_product, add_category, edit_category,
  forget_category, delete_category, attach, detach,
}

module _ {ℓ} {W : Type ℓ} where
  pub record IsProductEntry (key : String) (p : ProductData W) : Type 0 where
    pub id : p.product.id ≡ key
    pub ids : p.product.category_ids ≡ p.categories

pub record IsCategoryEntry (key : String) (c : CategoryData) : Type 0 where
  pub id : c.category.id ≡ key
  pub ids : c.category.product_ids ≡ c.products

forget_product-Each :
    (id : String) (ids : List String) (m : Map String CategoryData)
    → Each IsCategoryEntry m
    → Each IsCategoryEntry (forget_product id ids m)
unfolding forget_product
forget_product-Each id [] m h = h
forget_product-Each id (c ∷ rest) m h = elim (Option-cases (lookup c m)) [
  | inl e ↦ rw (e, forget_product) (forget_product-Each id rest m h)
  | inr (entry, e) ↦
      rw (e, forget_product)
        (forget_product-Each id rest _
          (Each-insert c _ (record { id = (h.at c entry e).id; ids = refl }) h))
]

module _ {ℓ} {W : Type ℓ} where
  -- The stored messages carry their key as id, and the ids of the list beside them.
  pub record IsMirrored (s : InMemoryStorage W) : Type ℓ where
    pub products : Each IsProductEntry s.products
    pub categories : Each IsCategoryEntry s.categories

  forget_category-Each :
      (id : String) (ids : List String) (m : Map String (ProductData W))
      → Each IsProductEntry m
      → Each IsProductEntry (forget_category id ids m)
  unfolding forget_category
  forget_category-Each id [] m h = h
  forget_category-Each id (p ∷ rest) m h = elim (Option-cases (lookup p m)) [
    | inl e ↦ rw (e, forget_category) (forget_category-Each id rest m h)
    | inr (entry, e) ↦
        rw (e, forget_category)
          (forget_category-Each id rest _
            (Each-insert p _ (record { id = (h.at p entry e).id; ids = refl }) h))
  ]

  edit_product-IsMirrored :
      (s : InMemoryStorage W) (p : Product W) → IsMirrored s → IsMirrored (edit_product s p).1
  unfolding edit_product
  edit_product-IsMirrored s p h = elim (Bool-cases (is_empty p.id)) [
    | inl b ↦ rw b h
    | inr b ↦ elim (Option-cases (lookup p.id s.products)) [
      | inl e ↦ rw (b, e, edit_product) h
      | inr (old, e) ↦
          rw (b, e, edit_product)
            (record {
              products =
                  Each-insert p.id _ (record { id = (h.products.at p.id old e).id; ids = refl })
                    h.products;
              categories = h.categories;
            })
    ]
  ]

  edit_category-IsMirrored :
      (s : InMemoryStorage W) (c : Category) → IsMirrored s → IsMirrored (edit_category s c).1
  unfolding edit_category
  edit_category-IsMirrored s c h = elim (Bool-cases (is_empty c.id)) [
    | inl b ↦ rw b h
    | inr b ↦ elim (Option-cases (lookup c.id s.categories)) [
      | inl e ↦ rw (b, e, edit_category) h
      | inr (old, e) ↦
          rw (b, e, edit_category)
            (record {
              products = h.products;
              categories =
                  Each-insert c.id _ (record { id = (h.categories.at c.id old e).id; ids = refl })
                    h.categories;
            })
    ]
  ]

  attach-IsMirrored :
      (s : InMemoryStorage W) (p c : String) → IsMirrored s → IsMirrored (attach s p c).1
  unfolding attach
  attach-IsMirrored s p c h = elim (Option-cases (lookup p s.products)) [
    | inl e ↦ rw (e, attach) h
    | inr (x, e) ↦ elim (Option-cases (lookup c s.categories)) [
      | inl f ↦ rw (e, f, attach) h
      | inr (y, f) ↦ elim (Bool-cases (has c x.categories)) [
        | inl b ↦ rw (e, f, attach, b) h
        | inr b ↦
            let px = h.products.at p x e in
            let cy = h.categories.at c y f in
            rw (e, f, attach, b)
              (record {
                products =
                    Each-insert p _ (record { id = px.id; ids = ap (λ l. l ++ (c ∷ [])) px.ids })
                      h.products;
                categories =
                    Each-insert c _ (record { id = cy.id; ids = ap (λ l. l ++ (p ∷ [])) cy.ids })
                      h.categories;
              })
      ]
    ]
  ]

  detach-IsMirrored :
      (s : InMemoryStorage W) (p c : String) → IsMirrored s → IsMirrored (detach s p c).1
  unfolding detach
  detach-IsMirrored s p c h = elim (Option-cases (lookup p s.products)) [
    | inl e ↦ rw (e, detach) h
    | inr (x, e) ↦ elim (Option-cases (lookup c s.categories)) [
      | inl f ↦ rw (e, f, detach) h
      | inr (y, f) ↦
          let px = h.products.at p x e in
          let cy = h.categories.at c y f in
          rw (e, f, detach)
            (record {
              products =
                  Each-insert p _ (record { id = ground arith; ids = ground arith }) h.products;
              categories =
                  Each-insert c _ (record { id = ground arith; ids = ground arith }) h.categories;
            })
    ]
  ]

  step-IsMirrored : (s : InMemoryStorage W) (c : Call W) → IsMirrored s → IsMirrored (step s c)
  unfolding step add_product add_category delete_product delete_category
  step-IsMirrored s (adds_product p) h = record {
    products = Each-insert _ _ (record { id = refl; ids = refl }) h.products;
    categories = h.categories;
  }
  step-IsMirrored s (adds_category c) h = record {
    products = h.products;
    categories = Each-insert _ _ (record { id = refl; ids = refl }) h.categories;
  }
  step-IsMirrored s (edits_product p) h = edit_product-IsMirrored s p h
  step-IsMirrored s (edits_category c) h = edit_category-IsMirrored s c h
  step-IsMirrored s (deletes_product id) h = elim (Option-cases (lookup id s.products)) [
    | inl e ↦ rw (e, step) h
    | inr (x, e) ↦
        rw (e, step)
          (record {
            products = Each-erase id h.products;
            categories = forget_product-Each id x.categories s.categories h.categories;
          })
  ]
  step-IsMirrored s (deletes_category id) h = elim (Option-cases (lookup id s.categories)) [
    | inl e ↦ rw (e, step) h
    | inr (x, e) ↦
        rw (e, step)
          (record {
            products = forget_category-Each id x.products s.products h.products;
            categories = Each-erase id h.categories;
          })
  ]
  step-IsMirrored s (attaches p c) h = attach-IsMirrored s p c h
  step-IsMirrored s (detaches p c) h = detach-IsMirrored s p c h

  run-IsMirrored :
      (s : InMemoryStorage W) (cs : List (Call W)) → IsMirrored s → IsMirrored (run s cs)
  unfolding run
  run-IsMirrored s [] h = h
  run-IsMirrored s (c ∷ cs) h = run-IsMirrored (step s c) cs (step-IsMirrored s c h)

  -- After any calls on an empty storage, every stored product and category has its key as its id, and
  -- its message lists the ids that the storage keeps beside it.
  pub run-empty_storage-IsMirrored : (cs : List (Call W)) → IsMirrored (run empty_storage cs)
  run-empty_storage-IsMirrored cs =
      run-IsMirrored empty_storage cs
        (unfold empty_storage in record { products = Each-nil; categories = Each-nil })
