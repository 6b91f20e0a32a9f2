-- ===== src/Shop/Unlink.antt =====
-- `DeleteProduct` and `DeleteCategory` keep the links of the rest.
use architecture_course.Prelude.{
  string_eq, String, List, [], ◌∷◌, false, ◌≡◌, eq_iff, ◌==◌, if◌then◌else◌, arith, Option-cases,
  inl, inr, has, has-remove_all, remove_all, Once, Once-remove_all, ◌&&◌,
}
use architecture_course.Prelude.Map.{Map, lookup, insert}
use architecture_course.Prelude.Map.Laws.{Each, Each-insert, Each-erase}
use architecture_course.Shop.Types.{
  ProductData, CategoryData, InMemoryStorage, with_categories, with_products,
}
use architecture_course.Shop.Storage.{
  forget_product, delete_product, forget_category, delete_category,
}
use architecture_course.Shop.Links.{
  lists, lists-insert, lists-erase, products_of, categories_of, IsLinked,
}

-- The loop of `DeleteProduct` takes the id out of the listed categories, and only that id.
lists-forget_product :
    (id c p : String) (ids : List String) (m : Map String CategoryData)
    → lists products_of c p (forget_product id ids m)
      ≡ (if id == p && has c ids then false else lists products_of c p m)
unfolding forget_product has
lists-forget_product id c p [] m = ground arith
lists-forget_product id c p (k ∷ rest) m = elim (Option-cases (lookup k m)) [
  | inl e ↦ rw (e, forget_product) (ground (arith, lists-forget_product id c p rest m, eq_iff k c))
  | inr (y, e) ↦
      rw (e, forget_product)
        (ground (
          arith,
          lists-forget_product id c p rest
              (insert k (with_products (remove_all id y.products) y) m),
          lists-insert products_of k c p (with_products (remove_all id y.products) y) m,
          has-remove_all p id y.products,
          eq_iff k c,
        ))
]

Once-forget_product :
    (id : String) (ids : List String) (m : Map String CategoryData)
    → Each (λ _ (y : CategoryData). Once y.products) m
    → Each (λ _ (y : CategoryData). Once y.products) (forget_product id ids m)
unfolding forget_product
Once-forget_product id [] m h = h
Once-forget_product id (k ∷ rest) m h = elim (Option-cases (lookup k m)) [
  | inl e ↦ rw (e, forget_product) (Once-forget_product id rest m h)
  | inr (y, e) ↦
      rw (e, forget_product)
        (Once-forget_product id rest _
          (Each-insert k _ (Once-remove_all id y.products (h.at k y e)) h))
]

module _ {ℓ} {W : Type ℓ} where
  -- The loop of `DeleteCategory` takes the id out of the listed products, and only that id.
  lists-forget_category :
      (id p c : String) (ids : List String) (m : Map String (ProductData W))
      → lists categories_of p c (forget_category id ids m)
        ≡ (if id == c && has p ids then false else lists categories_of p c m)
  unfolding forget_category has
  lists-forget_category id p c [] m = ground arith
  lists-forget_category id p c (k ∷ rest) m = elim (Option-cases (lookup k m)) [
    | inl e ↦
        rw (e, forget_category) (ground (arith, lists-forget_category id p c rest m, eq_iff k p))
    | inr (y, e) ↦
        rw (e, forget_category)
          (ground (
            arith,
            lists-forget_category id p c rest
                (insert k (with_categories (remove_all id y.categories) y) m),
            lists-insert categories_of k p c (with_categories (remove_all id y.categories) y) m,
            has-remove_all c id y.categories,
            eq_iff k p,
          ))
  ]

  Once-forget_category :
      (id : String) (ids : List String) (m : Map String (ProductData W))
      → Each (λ _ (y : ProductData W). Once y.categories) m
      → Each (λ _ (y : ProductData W). Once y.categories) (forget_category id ids m)
  unfolding forget_category
  Once-forget_category id [] m h = h
  Once-forget_category id (k ∷ rest) m h = elim (Option-cases (lookup k m)) [
    | inl e ↦ rw (e, forget_category) (Once-forget_category id rest m h)
    | inr (y, e) ↦
        rw (e, forget_category)
          (Once-forget_category id rest _
            (Each-insert k _ (Once-remove_all id y.categories (h.at k y e)) h))
  ]

  pub delete_product-IsLinked :
      (s : InMemoryStorage W) (id : String) → IsLinked s → IsLinked (delete_product s id).1
  unfolding delete_product
  delete_product-IsLinked s id h = elim (Option-cases (lookup id s.products)) [
    | inl e ↦ rw (e, delete_product) h
    | inr (x, e) ↦
        rw (e, delete_product)
          (record {
            agree = λ p c.
                rw (lists-erase categories_of id p c, lists-forget_product id c p x.categories)
                  (ground (arith, eq_iff id p, h.agree p c));
            products = Each-erase id h.products;
            categories = Once-forget_product id x.categories s.categories h.categories;
          })
  ]

  pub delete_category-IsLinked :
      (s : InMemoryStorage W) (id : String) → IsLinked s → IsLinked (delete_category s id).1
  unfolding delete_category
  delete_category-IsLinked s id h = elim (Option-cases (lookup id s.categories)) [
    | inl e ↦ rw (e, delete_category) h
    | inr (x, e) ↦
        rw (e, delete_category)
          (record {
            agree = λ p c.
                rw (lists-erase products_of id c p, lists-forget_category id p c x.products)
                  (ground (arith, eq_iff id c, h.agree p c));
            products = Once-forget_category id x.products s.products h.products;
            categories = Each-erase id h.categories;
          })
  ]
