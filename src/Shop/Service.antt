-- ===== src/Shop/Service.antt =====
-- ecommerce_service_impl.cpp: the handlers of the gRPC service. Protocol buffers are not modelled: a
-- request is what a handler reads of it, an optional message or id. The log lines are left out.
use architecture_course.Prelude.{
  string_eq, String, Option, none, some, List, [], ◌∷◌, Bool, ◌||◌, if◌then◌else◌, is_empty,
}
use architecture_course.Prelude.Int.{pos}
use architecture_course.Prelude.Double.{Double}
use architecture_course.Shop.Types.{Product, Category, Pagination, ProductFilter, InMemoryStorage}
use architecture_course.Shop.Storage.{
  add_product, edit_product, delete_product, add_category, edit_category, delete_category, attach,
  detach, get_all_products, get_all_categories, get_product_by_id, get_category_by_id,
}

-- `grpc::Status` with the codes that the service returns.
pub data Status : Type 0 where
  okay : Status
  invalid_argument not_found internal : String → Status

-- The status, the message that the response holds if one was set, and the storage after the call.
pub record Reply {ℓ κ} (A : Type κ) (W : Type ℓ) : Type (ℓ ⊔ κ) where
  pub status : Status
  pub response : Option A
  pub storage : InMemoryStorage W

module _ {ℓ κ} {A : Type κ} {W : Type ℓ} where
  abbrev pub refuse : Status → InMemoryStorage W → Reply A W
  refuse status s = record { status = status; response = none; storage = s }

  -- The end of most handlers: the stored message as the response, or a status.
  abbrev pub reply_stored : Option A → Status → InMemoryStorage W → Reply A W
  reply_stored none status s = refuse status s
  reply_stored (some a) status s = record { status = okay; response = some a; storage = s }

abbrev pub default_pagination : Pagination
default_pagination = record { limit = pos 100; offset = pos 0 }

abbrev pub or_default : Option Pagination → Pagination
or_default none = default_pagination
or_default (some p) = p

module _ {ℓ} {W : Type ℓ} (s : InMemoryStorage W) where
  unfoldable pub serve_add_product : Option (Product W) → Reply (Product W) W
  serve_add_product none = refuse (invalid_argument "Product is required") s
  serve_add_product (some product) =
      let (id, after) = add_product s product in
      reply_stored (get_product_by_id after id) (internal "Failed to add product") after

  unfoldable pub serve_edit_product : Option (Product W) → Reply (Product W) W
  serve_edit_product none = refuse (invalid_argument "Product ID is required") s
  serve_edit_product (some product) =
      if is_empty product.id
      then refuse (invalid_argument "Product ID is required") s
      else let (found, after) = edit_product s product in
        let missing = not_found "Product not found" in
        if found
        then reply_stored (get_product_by_id after product.id) missing after
        else refuse missing after

  -- The response of a deletion holds the id alone.
  unfoldable pub serve_delete_product : Option (Product W) → Reply String W
  serve_delete_product none = refuse (invalid_argument "Product ID is required") s
  serve_delete_product (some product) =
      if is_empty product.id
      then refuse (invalid_argument "Product ID is required") s
      else let (found, after) = delete_product s product.id in
        if found
        then record { status = okay; response = some product.id; storage = after }
        else refuse (not_found "Product not found") after

  unfoldable pub serve_add_category : Option Category → Reply Category W
  serve_add_category none = refuse (invalid_argument "Category is required") s
  serve_add_category (some category) =
      let (id, after) = add_category s category in
      reply_stored (get_category_by_id after id) (internal "Failed to add category") after

  unfoldable pub serve_edit_category : Option Category → Reply Category W
  serve_edit_category none = refuse (invalid_argument "Category ID is required") s
  serve_edit_category (some category) =
      if is_empty category.id
      then refuse (invalid_argument "Category ID is required") s
      else let (found, after) = edit_category s category in
        let missing = not_found "Category not found" in
        if found
        then reply_stored (get_category_by_id after category.id) missing after
        else refuse missing after

  unfoldable pub serve_delete_category : Option Category → Reply String W
  serve_delete_category none = refuse (invalid_argument "Category ID is required") s
  serve_delete_category (some category) =
      if is_empty category.id
      then refuse (invalid_argument "Category ID is required") s
      else let (found, after) = delete_category s category.id in
        if found
        then record { status = okay; response = some category.id; storage = after }
        else refuse (not_found "Category not found") after

  -- The end of `AttachProductToCategory` and of `DetachProductFromCategory`.
  abbrev pub reply_category : Bool × InMemoryStorage W → String → Reply Category W
  reply_category (found, after) category_id =
      let missing = not_found "Product or Category not found" in
      if found
      then reply_stored (get_category_by_id after category_id) missing after
      else refuse missing after

  unfoldable pub serve_attach : String → String → Reply Category W
  serve_attach product_id category_id =
      if is_empty product_id || is_empty category_id
      then refuse (invalid_argument "Product ID and Category ID are required") s
      else reply_category (attach s product_id category_id) category_id

  unfoldable pub serve_detach : String → String → Reply Category W
  serve_detach product_id category_id =
      if is_empty product_id || is_empty category_id
      then refuse (invalid_argument "Product ID and Category ID are required") s
      else reply_category (detach s product_id category_id) category_id

  -- An unset filter is the default message, whose price is 0.
  unfoldable pub serve_get_all_products :
      ⦃d : Double W⦄ → Option (ProductFilter W) → Option Pagination → Reply (List (Product W)) W
  serve_get_all_products ⦃d⦄ filter pagination = record {
    status = okay;
    response = some (get_all_products s (filter_or_default filter) (or_default pagination));
    storage = s;
  }
    where
      filter_or_default : Option (ProductFilter W) → ProductFilter W
      filter_or_default none = record { max_price = d.nought }
      filter_or_default (some f) = f

  unfoldable pub serve_get_all_categories : Option Category → Reply (List Category) W
  serve_get_all_categories category = record {
    status = okay;
    response = some (found category);
    storage = s;
  }
    where
      all : List Category
      all = get_all_categories s default_pagination

      one : Option Category → List Category
      one none = []
      one (some c) = c ∷ []

      found : Option Category → List Category
      found none = all
      found (some c) = if is_empty c.id then all else one (get_category_by_id s c.id)

  unfoldable pub serve_get_product_by_id : Option (Product W) → Reply (Product W) W
  serve_get_product_by_id none = refuse (invalid_argument "Product ID is required") s
  serve_get_product_by_id (some product) =
      if is_empty product.id
      then refuse (invalid_argument "Product ID is required") s
      else reply_stored (get_product_by_id s product.id) (not_found "Product not found") s

  unfoldable pub serve_get_category_by_id : Option Category → Reply Category W
  serve_get_category_by_id none = refuse (invalid_argument "Category ID is required") s
  serve_get_category_by_id (some category) =
      if is_empty category.id
      then refuse (invalid_argument "Category ID is required") s
      else reply_stored (get_category_by_id s category.id) (not_found "Category not found") s
