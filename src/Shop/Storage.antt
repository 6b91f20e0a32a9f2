-- ===== src/Shop/Storage.antt =====
-- in_memory_storage.cpp: products and categories, each with the ids of the other side. The lists
-- `categories` and `products` are kept beside the repeated fields of the messages, as in the source.
use architecture_course.Prelude.{
  string_eq, String, Option, none, some, List, [], ◌∷◌, ◌++◌, Bool, true, false, not, ◌&&◌,
  if◌then◌else◌, is_empty, length, keep_if, has, erase_first, remove_all, map,
}
use architecture_course.Prelude.Map.{Map, lookup, insert, erase, values}
use architecture_course.Prelude.Double.{Double}
use architecture_course.Shop.Types.{
  Product, Category, Pagination, ProductFilter, ProductData, CategoryData, InMemoryStorage,
  generated_id, with_categories, with_products, paginate,
}

-- The loop of `DeleteProduct` over the categories of the product.
unfoldable pub forget_product :
    String → List String → Map String CategoryData → Map String CategoryData
forget_product id [] categories = categories
forget_product id (cat_id ∷ rest) categories =
    forget_product id rest (elim (lookup cat_id categories) [
      | none ↦ categories
      | some entry ↦ insert cat_id (with_products (remove_all id entry.products) entry) categories
    ])

module _ {ℓ} {W : Type ℓ} where
  unfoldable pub add_product : InMemoryStorage W → Product W → String × InMemoryStorage W
  add_product s product =
      let id =
        if is_empty product.id then generated_id "prod_" (length s.products) else product.id in
      let entry : ProductData W = record {
        product = record product { id = id };
        categories = product.category_ids;
      } in
      (id, record s { products = insert id entry s.products })

  unfoldable pub edit_product : InMemoryStorage W → Product W → Bool × InMemoryStorage W
  edit_product s product =
      if is_empty product.id then (false, s) else elim (lookup product.id s.products) [
        | none ↦ (false, s)
        | some old ↦
            let edited = record old.product {
              name = product.name;
              description = product.description;
              price = product.price;
              quantity = product.quantity;
              category_ids = product.category_ids;
            } in
            let entry : ProductData W = record {
              product = edited;
              categories = product.category_ids;
            } in
            (true, record s { products = insert product.id entry s.products })
      ]

  unfoldable pub delete_product : InMemoryStorage W → String → Bool × InMemoryStorage W
  delete_product s id = elim (lookup id s.products) [
    | none ↦ (false, s)
    | some entry ↦ (
      true,
      record {
        products = erase id s.products;
        categories = forget_product id entry.categories s.categories;
      },
    )
  ]

  unfoldable pub add_category : InMemoryStorage W → Category → String × InMemoryStorage W
  add_category s category =
      let id =
        if is_empty category.id then generated_id "cat_" (length s.categories) else category.id in
      let entry : CategoryData = record {
        category = record category { id = id };
        products = category.product_ids;
      } in
      (id, record s { categories = insert id entry s.categories })

  unfoldable pub edit_category : InMemoryStorage W → Category → Bool × InMemoryStorage W
  edit_category s category =
      if is_empty category.id then (false, s) else elim (lookup category.id s.categories) [
        | none ↦ (false, s)
        | some old ↦
            let edited = record old.category {
              name = category.name;
              product_ids = category.product_ids;
            } in
            let entry : CategoryData = record {
              category = edited;
              products = category.product_ids;
            } in
            (true, record s { categories = insert category.id entry s.categories })
      ]

  -- The loop of `DeleteCategory` over the products of the category.
  unfoldable pub forget_category :
      String → List String → Map String (ProductData W) → Map String (ProductData W)
  forget_category id [] products = products
  forget_category id (prod_id ∷ rest) products =
      forget_category id rest (elim (lookup prod_id products) [
        | none ↦ products
        | some entry ↦
            insert prod_id (with_categories (remove_all id entry.categories) entry) products
      ])

  unfoldable pub delete_category : InMemoryStorage W → String → Bool × InMemoryStorage W
  delete_category s id = elim (lookup id s.categories) [
    | none ↦ (false, s)
    | some entry ↦ (
      true,
      record {
        products = forget_category id entry.products s.products;
        categories = erase id s.categories;
      },
    )
  ]

  -- The messages are appended to, not rebuilt.
  unfoldable pub attach : InMemoryStorage W → String → String → Bool × InMemoryStorage W
  attach s product_id category_id = elim (lookup product_id s.products) [
    | none ↦ (false, s)
    | some p ↦ elim (lookup category_id s.categories) [
      | none ↦ (false, s)
      | some c ↦
          if has category_id p.categories
          then (true, s)
          else let p' : ProductData W = record {
            product = record p.product {
              category_ids = p.product.category_ids ++ (category_id ∷ []);
            };
            categories = p.categories ++ (category_id ∷ []);
          } in
            let c' : CategoryData = record {
              category = record c.category {
                product_ids = c.category.product_ids ++ (product_id ∷ []);
              };
              products = c.products ++ (product_id ∷ []);
            } in
            (
              true,
              record {
                products = insert product_id p' s.products;
                categories = insert category_id c' s.categories;
              },
            )
    ]
  ]

  unfoldable pub detach : InMemoryStorage W → String → String → Bool × InMemoryStorage W
  detach s product_id category_id = elim (lookup product_id s.products) [
    | none ↦ (false, s)
    | some p ↦ elim (lookup category_id s.categories) [
      | none ↦ (false, s)
      | some c ↦
          let p' =
            if has category_id p.categories
            then with_categories (erase_first category_id p.categories) p
            else p in
          let c' =
            if has product_id c.products
            then with_products (erase_first product_id c.products) c
            else c in
          (
            true,
            record {
              products = insert product_id p' s.products;
              categories = insert category_id c' s.categories;
            },
          )
    ]
  ]

module _ {ℓ} {W : Type ℓ} where
  unfoldable pub get_all_products :
      ⦃d : Double W⦄ → InMemoryStorage W → ProductFilter W → Pagination → List (Product W)
  unfolding paginate values
  get_all_products ⦃d⦄ s filter pagination = paginate pagination (
      keep_if
        (λ (p : Product W). not (d.lt d.nought filter.max_price && d.lt filter.max_price p.price))
        (map (λ (x : ProductData W). x.product) (values s.products)))

  unfoldable pub get_all_categories : InMemoryStorage W → Pagination → List Category
  unfolding paginate values
  get_all_categories s pagination =
      paginate pagination (map (λ (x : CategoryData). x.category) (values s.categories))

  unfoldable pub get_product_by_id : InMemoryStorage W → String → Option (Product W)
  get_product_by_id s id = elim (lookup id s.products) [
    | none ↦ none
    | some entry ↦ some entry.product
  ]

  unfoldable pub get_category_by_id : InMemoryStorage W → String → Option Category
  get_category_by_id s id = elim (lookup id s.categories) [
    | none ↦ none
    | some entry ↦ some entry.category
  ]
