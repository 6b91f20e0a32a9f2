-- ===== src/Shop/Roundtrip.antt =====
-- Detaching undoes attaching, and what a generated id may meet.
use architecture_course.Prelude.{
  string_eq, String, some, ◌≡◌, refl, sym, Bool, ◌∙◌, arith, is_empty, true, false, has,
  erase_first, erase_first-append, List, [], ◌∷◌, ◌++◌, eq_iff, has-append, length, ap,
}
use architecture_course.Prelude.Map.{lookup, insert}
use architecture_course.Prelude.Map.Laws.{
  lookup-insert_self, insert-insert, insert_same, length-insert,
}
use architecture_course.Shop.Types.{
  Product, ProductData, CategoryData, InMemoryStorage, generated_id, with_categories, with_products,
}
use architecture_course.Shop.Storage.{add_product, attach, detach}
use architecture_course.Shop.Mirror.{IsMirrored, IsProductEntry, IsCategoryEntry}
use architecture_course.Shop.Links.{IsLinked}

-- The entries that `attach` writes.
abbrev attached_category : String → CategoryData → CategoryData
attached_category p y = record {
  category = record y.category { product_ids = y.category.product_ids ++ (p ∷ []) };
  products = y.products ++ (p ∷ []);
}

detached_category :
    (p key : String) (y : CategoryData)
    → IsCategoryEntry key y
    → has p y.products ≡ false
    → with_products (erase_first p (y.products ++ (p ∷ []))) (attached_category p y) ≡ y
detached_category p key y m b = rw (erase_first-append p y.products b) (
    ap (λ (l : List String). record y { category = record y.category { product_ids = l } })
      (sym m.ids))

module _ {ℓ} {W : Type ℓ} where
  abbrev attached_product : String → ProductData W → ProductData W
  attached_product c x = record {
    product = record x.product { category_ids = x.product.category_ids ++ (c ∷ []) };
    categories = x.categories ++ (c ∷ []);
  }

  detached_product :
      (c key : String) (x : ProductData W)
      → IsProductEntry key x
      → has c x.categories ≡ false
      → with_categories (erase_first c (x.categories ++ (c ∷ []))) (attached_product c x) ≡ x
  detached_product c key x m b = rw (erase_first-append c x.categories b) (
      ap (λ (l : List String). record x { product = record x.product { category_ids = l } })
        (sym m.ids))

  module _ (s : InMemoryStorage W) (p c : String) (x : ProductData W) (y : CategoryData)
      (e : lookup p s.products ≡ some x) (f : lookup c s.categories ≡ some y) where
    attach_new :
        has c x.categories ≡ false
        → attach s p c ≡ (
          true,
          record {
            products = insert p (attached_product c x) s.products;
            categories = insert c (attached_category p y) s.categories;
          },
        )
    unfolding attach
    attach_new b = rw (e, f, attach, b) refl

    detach_both :
        has c x.categories ≡ true
        → has p y.products ≡ true
        → detach s p c ≡ (
          true,
          record {
            products = insert p (with_categories (erase_first c x.categories) x) s.products;
            categories = insert c (with_products (erase_first p y.products) y) s.categories;
          },
        )
    unfolding detach
    detach_both b b' = rw (e, f, detach, b, b') refl

  -- Where no link is, the messages mirror the lists, and both sides agree, detaching a product right
  -- after it was attached succeeds and gives back the storage.
  pub detach-attach :
      (s : InMemoryStorage W) (p c : String) (x : ProductData W) (y : CategoryData)
      → IsMirrored s
      → IsLinked s
      → lookup p s.products ≡ some x
      → lookup c s.categories ≡ some y
      → has c x.categories ≡ false
      → detach (attach s p c).1 p c ≡ (true, s)
  detach-attach s p c x y m l e f b =
      let known = l.agree p c in
      let b' : has p y.products ≡ false = ground arith in
      let h : has c (x.categories ++ (c ∷ [])) ≡ true =
        ground (arith, has-append c c x.categories, eq_iff c c) in
      let h' : has p (y.products ++ (p ∷ [])) ≡ true =
        ground (arith, has-append p p y.products, eq_iff p p) in
      let after : InMemoryStorage W = record {
        products = insert p (attached_product c x) s.products;
        categories = insert c (attached_category p y) s.categories;
      } in
      ap (λ (r : Bool × InMemoryStorage W). detach r.1 p c) (attach_new s p c x y e f b)
      ∙ detach_both after p c (attached_product c x) (attached_category p y)
          (lookup-insert_self p (attached_product c x) s.products)
          (lookup-insert_self c (attached_category p y) s.categories) h h'
      ∙ rw
          (
            detached_product c p x (m.products.at p x e) b,
            detached_category p c y (m.categories.at c y f) b',
            insert-insert,
            insert-insert,
            insert_same p x s.products e,
            insert_same c y s.categories f,
          )
          refl

  -- An id that is generated after a deletion may be in use: then the new product takes the place of
  -- the one stored under it, and the storage has as many products as before.
  pub add_product_overwrites :
      (s : InMemoryStorage W) (p : Product W) (old : ProductData W)
      → is_empty p.id ≡ true
      → lookup (generated_id "prod_" (length s.products)) s.products ≡ some old
      → let id = generated_id "prod_" (length s.products) in
        (lookup id (add_product s p).1.products
          ≡ some (record { product = record p { id = id }; categories = p.category_ids }))
        × (length (add_product s p).1.products ≡ length s.products)
  unfolding add_product
  add_product_overwrites s p old e h =
      rw e (lookup-insert_self _ _ s.products, length-insert _ _ s.products ∙ rw h refl)
