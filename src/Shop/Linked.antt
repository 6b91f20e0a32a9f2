-- ===== src/Shop/Linked.antt =====
-- The calls that keep the links of both sides in agreement.
use architecture_course.Prelude.{
  string_eq, String, none, some, [], ◌≡◌, refl, eq_iff, is_empty, arith, Bool-cases, Option-cases,
  inl, inr, has,
}
use architecture_course.Prelude.Map.{lookup, insert}
use architecture_course.Prelude.Map.Laws.{Each-insert, Each-nil}
use architecture_course.Shop.Types.{
  Product, Category, ProductData, CategoryData, InMemoryStorage, empty_storage,
}
use architecture_course.Shop.Storage.{add_product, edit_product, add_category, edit_category}
use architecture_course.Shop.Calls.{
  Call, adds_product, edits_product, adds_category, edits_category, deletes_product,
  deletes_category, attaches, detaches, step,
}
use architecture_course.Shop.Links.{
  lists-insert, products_of, categories_of, IsLinked, attach-IsLinked, detach-IsLinked,
}
use architecture_course.Shop.Unlink.{delete_product-IsLinked, delete_category-IsLinked}

module _ {ℓ} {W : Type ℓ} where
  -- A call that leaves the links to `AttachProductToCategory` and `DetachProductFromCategory`: an
  -- addition comes without links and under a new id, an edit repeats the stored links.
  pub data LeavesLinks (s : InMemoryStorage W) : Call W → Type ℓ where
    adds_bare_product :
        (p : Product W)
        → p.category_ids ≡ []
        → lookup (add_product s p).0 s.products ≡ none
        → LeavesLinks s (adds_product p)
    adds_bare_category :
        (c : Category)
        → c.product_ids ≡ []
        → lookup (add_category s c).0 s.categories ≡ none
        → LeavesLinks s (adds_category c)
    repeats_categories :
        (p : Product W)
        → ((x : ProductData W) → lookup p.id s.products ≡ some x → x.categories ≡ p.category_ids)
        → LeavesLinks s (edits_product p)
    repeats_products :
        (c : Category)
        → ((y : CategoryData) → lookup c.id s.categories ≡ some y → y.products ≡ c.product_ids)
        → LeavesLinks s (edits_category c)
    deleting_product : (id : String) → LeavesLinks s (deletes_product id)
    deleting_category : (id : String) → LeavesLinks s (deletes_category id)
    attaching : (p c : String) → LeavesLinks s (attaches p c)
    detaching : (p c : String) → LeavesLinks s (detaches p c)

  added_product-IsLinked :
      (s : InMemoryStorage W) (key : String) (x : ProductData W)
      → x.categories ≡ []
      → lookup key s.products ≡ none
      → IsLinked s
      → IsLinked (record s { products = insert key x s.products })
  unfolding has
  added_product-IsLinked s key x e n h = record {
    agree = λ p c.
        rw (lists-insert categories_of key p c, e) (ground (arith, eq_iff key p, h.agree p c));
    products = Each-insert key x (rw e tt) h.products;
    categories = h.categories;
  }

  added_category-IsLinked :
      (s : InMemoryStorage W) (key : String) (y : CategoryData)
      → y.products ≡ []
      → lookup key s.categories ≡ none
      → IsLinked s
      → IsLinked (record s { categories = insert key y s.categories })
  unfolding has
  added_category-IsLinked s key y e n h = record {
    agree =
        λ p c. rw (lists-insert products_of key c p, e) (ground (arith, eq_iff key c, h.agree p c));
    products = h.products;
    categories = Each-insert key y (rw e tt) h.categories;
  }

  edited_product-IsLinked :
      (s : InMemoryStorage W) (key : String) (old x : ProductData W)
      → lookup key s.products ≡ some old
      → old.categories ≡ x.categories
      → IsLinked s
      → IsLinked (record s { products = insert key x s.products })
  edited_product-IsLinked s key old x e q h = record {
    agree = λ p c.
        rw (lists-insert categories_of key p c, ← q) (ground (arith, eq_iff key p, h.agree p c));
    products = Each-insert key x (rw (← q) (h.products.at key old e)) h.products;
    categories = h.categories;
  }

  edited_category-IsLinked :
      (s : InMemoryStorage W) (key : String) (old y : CategoryData)
      → lookup key s.categories ≡ some old
      → old.products ≡ y.products
      → IsLinked s
      → IsLinked (record s { categories = insert key y s.categories })
  edited_category-IsLinked s key old y e q h = record {
    agree = λ p c.
        rw (lists-insert products_of key c p, ← q) (ground (arith, eq_iff key c, h.agree p c));
    products = h.products;
    categories = Each-insert key y (rw (← q) (h.categories.at key old e)) h.categories;
  }

  edit_product-IsLinked :
      (s : InMemoryStorage W) (p : Product W)
      → ((x : ProductData W) → lookup p.id s.products ≡ some x → x.categories ≡ p.category_ids)
      → IsLinked s
      → IsLinked (edit_product s p).1
  unfolding edit_product
  edit_product-IsLinked s p l h = elim (Bool-cases (is_empty p.id)) [
    | inl b ↦ rw b h
    | inr b ↦ elim (Option-cases (lookup p.id s.products)) [
      | inl e ↦ rw (b, e, edit_product) h
      | inr (old, e) ↦ rw (b, e, edit_product) (edited_product-IsLinked s p.id old _ e (l old e) h)
    ]
  ]

  edit_category-IsLinked :
      (s : InMemoryStorage W) (c : Category)
      → ((y : CategoryData) → lookup c.id s.categories ≡ some y → y.products ≡ c.product_ids)
      → IsLinked s
      → IsLinked (edit_category s c).1
  unfolding edit_category
  edit_category-IsLinked s c l h = elim (Bool-cases (is_empty c.id)) [
    | inl b ↦ rw b h
    | inr b ↦ elim (Option-cases (lookup c.id s.categories)) [
      | inl e ↦ rw (b, e, edit_category) h
      | inr (old, e) ↦
          rw (b, e, edit_category) (edited_category-IsLinked s c.id old _ e (l old e) h)
    ]
  ]

  -- Attaching, detaching, deleting, adding without links under a new id, and editing with the stored
  -- links keep both sides in agreement: a product lists a category exactly if the category lists the
  -- product, nothing lists a missing entry, and no list has an id twice.
  pub step-IsLinked :
      (s : InMemoryStorage W) (c : Call W) → LeavesLinks s c → IsLinked s → IsLinked (step s c)
  unfolding step
  step-IsLinked s _ (adds_bare_product p e n) h =
      unfold add_product in added_product-IsLinked s _ _ e n h
  step-IsLinked s _ (adds_bare_category c e n) h =
      unfold add_category in added_category-IsLinked s _ _ e n h
  step-IsLinked s _ (repeats_categories p l) h = edit_product-IsLinked s p l h
  step-IsLinked s _ (repeats_products c l) h = edit_category-IsLinked s c l h
  step-IsLinked s _ (deleting_product id) h = delete_product-IsLinked s id h
  step-IsLinked s _ (deleting_category id) h = delete_category-IsLinked s id h
  step-IsLinked s _ (attaching p c) h = attach-IsLinked s p c h
  step-IsLinked s _ (detaching p c) h = detach-IsLinked s p c h

pub empty_storage-IsLinked {ℓ} : {W : Type ℓ} → IsLinked {W = W} empty_storage
unfolding empty_storage lookup
empty_storage-IsLinked = record { agree = λ p c. refl; products = Each-nil; categories = Each-nil }
