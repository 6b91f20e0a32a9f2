-- ===== src/Shop/Replies.antt =====
-- What the handlers of the gRPC service answer.
use architecture_course.Prelude.{
  string_eq, String, Option, none, some, ◌≡◌, refl, ap, ◌⊎◌, inl, inr, arith,
}
use architecture_course.Prelude.Map.Laws.{lookup-insert_self}
use architecture_course.Shop.Types.{Product, Category, InMemoryStorage}
use architecture_course.Shop.Storage.{
  add_product, edit_product, delete_product, add_category, edit_category, delete_category, attach,
  detach, get_product_by_id, get_category_by_id,
}
use architecture_course.Shop.Service.{
  okay, Reply, serve_add_product, serve_edit_product, serve_delete_product, serve_add_category,
  serve_edit_category, serve_delete_category, serve_attach, serve_detach,
}

module _ {ℓ} {W : Type ℓ} (s : InMemoryStorage W) where
  -- A refusal leaves the storage as it was and the response unset.
  abbrev pub IsAtomic {κ} : {A : Type κ} → Reply A W → Type (ℓ ⊔ κ)
  IsAtomic r = (r.status ≡ okay) ⊎ ((r.storage ≡ s) × (r.response ≡ none))

  -- An addition is answered by the product as it was stored, under the id that it got.
  pub serve_add_product_lem :
      (p : Product W)
      → let (id, after) = add_product s p in
        serve_add_product s (some p)
        ≡ record { status = okay; response = some (record p { id = id }); storage = after }
  unfolding serve_add_product add_product get_product_by_id
  serve_add_product_lem p = grind (arith, lookup-insert_self)

  serve_add_product-IsAtomic : (p : Option (Product W)) → IsAtomic (serve_add_product s p)
  unfolding serve_add_product
  serve_add_product-IsAtomic none = inr (refl, refl)
  serve_add_product-IsAtomic (some p) =
      inl (ap (λ (r : Reply (Product W) W). r.status) (serve_add_product_lem p))

  serve_edit_product-IsAtomic : (p : Option (Product W)) → IsAtomic (serve_edit_product s p)
  unfolding serve_edit_product edit_product get_product_by_id
  serve_edit_product-IsAtomic none = inr (refl, refl)
  serve_edit_product-IsAtomic (some p) = grind (arith, lookup-insert_self)

  serve_delete_product-IsAtomic : (p : Option (Product W)) → IsAtomic (serve_delete_product s p)
  unfolding serve_delete_product delete_product
  serve_delete_product-IsAtomic none = inr (refl, refl)
  serve_delete_product-IsAtomic (some p) = ground arith

  serve_attach-IsAtomic : (p c : String) → IsAtomic (serve_attach s p c)
  unfolding serve_attach attach get_category_by_id
  serve_attach-IsAtomic p c = grind (arith, lookup-insert_self)

  serve_detach-IsAtomic : (p c : String) → IsAtomic (serve_detach s p c)
  unfolding serve_detach detach get_category_by_id
  serve_detach-IsAtomic p c = grind (arith, lookup-insert_self)

  -- An addition is answered by the category as it was stored, under the id that it got.
  pub serve_add_category_lem :
      (c : Category)
      → let (id, after) = add_category s c in
        serve_add_category s (some c)
        ≡ record { status = okay; response = some (record c { id = id }); storage = after }
  unfolding serve_add_category add_category get_category_by_id
  serve_add_category_lem c = grind (arith, lookup-insert_self)

  serve_add_category-IsAtomic : (c : Option Category) → IsAtomic (serve_add_category s c)
  unfolding serve_add_category
  serve_add_category-IsAtomic none = inr (refl, refl)
  serve_add_category-IsAtomic (some c) =
      inl (ap (λ (r : Reply Category W). r.status) (serve_add_category_lem c))

  serve_edit_category-IsAtomic : (c : Option Category) → IsAtomic (serve_edit_category s c)
  unfolding serve_edit_category edit_category get_category_by_id
  serve_edit_category-IsAtomic none = inr (refl, refl)
  serve_edit_category-IsAtomic (some c) = grind (arith, lookup-insert_self)

  serve_delete_category-IsAtomic : (c : Option Category) → IsAtomic (serve_delete_category s c)
  unfolding serve_delete_category delete_category
  serve_delete_category-IsAtomic none = inr (refl, refl)
  serve_delete_category-IsAtomic (some c) = ground arith

  -- Each of the eight handlers that change the storage either answers with the status OK, or leaves
  -- the storage as it was and the response unset.
  pub serves_atomically :
      (product : Option (Product W)) (category : Option Category) (product_id category_id : String)
      → (IsAtomic (serve_add_product s product)
          × IsAtomic (serve_edit_product s product)
          × IsAtomic (serve_delete_product s product))
        × (IsAtomic (serve_add_category s category)
            × IsAtomic (serve_edit_category s category)
            × IsAtomic (serve_delete_category s category))
        × IsAtomic (serve_attach s product_id category_id)
        × IsAtomic (serve_detach s product_id category_id)
  serves_atomically product category product_id category_id = (
    (
      serve_add_product-IsAtomic product,
      serve_edit_product-IsAtomic product,
      serve_delete_product-IsAtomic product,
    ),
    (
      serve_add_category-IsAtomic category,
      serve_edit_category-IsAtomic category,
      serve_delete_category-IsAtomic category,
    ),
    serve_attach-IsAtomic product_id category_id,
    serve_detach-IsAtomic product_id category_id,
  )
