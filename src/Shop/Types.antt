-- ===== src/Shop/Types.antt =====
-- ecommerce.proto and in_memory_storage.h: the messages and the state, over any type of doubles; and the
-- window that both listings cut.
use Prim.Native.String.{◌++◌ as str_append}
use architecture_course.Prelude.{
  string_eq, ℕ, ◌+◌, ◌-◌, String, List, [], if◌then◌else◌, length, take, drop, leb, min,
}
use architecture_course.Prelude.Map.{Map}
use architecture_course.Prelude.Decimal.{to_string}
use architecture_course.Prelude.Int.{ℤ, pos_part}

pub record Product {ℓ} (W : Type ℓ) : Type ℓ where
  pub id : String
  pub name : String
  pub description : String
  pub price : W
  pub quantity : ℤ
  pub category_ids : List String

pub record Category : Type 0 where
  pub id : String
  pub name : String
  pub product_ids : List String

pub record Pagination : Type 0 where
  pub limit : ℤ
  pub offset : ℤ

pub record ProductFilter {ℓ} (W : Type ℓ) : Type ℓ where
  pub max_price : W

pub record ProductData {ℓ} (W : Type ℓ) : Type ℓ where
  pub product : Product W
  pub categories : List String

pub record CategoryData : Type 0 where
  pub category : Category
  pub products : List String

pub record InMemoryStorage {ℓ} (W : Type ℓ) : Type ℓ where
  pub products : Map String (ProductData W)
  pub categories : Map String CategoryData

unfoldable pub empty_storage {ℓ} : {W : Type ℓ} → InMemoryStorage W
empty_storage = record { products = []; categories = [] }

-- `"prod_" + std::to_string(size + 1)`, and the same for categories
abbrev pub generated_id : String → ℕ → String
generated_id prefix size = str_append prefix (to_string (size + 1))

-- The update of a product's or of a category's list together with its message.
abbrev pub with_categories {ℓ} : {W : Type ℓ} → List String → ProductData W → ProductData W
with_categories ids entry = record {
  product = record entry.product { category_ids = ids };
  categories = ids;
}

abbrev pub with_products : List String → CategoryData → CategoryData
with_products ids entry = record {
  category = record entry.category { product_ids = ids };
  products = ids;
}

-- The window of `GetAllProducts` and `GetAllCategories`. An `int` sum that passes 2^31 - 1 is above
-- the size here and in the source alike.

unfoldable pub paginate {ℓ} : {A : Type ℓ} → Pagination → List A → List A
paginate pagination result =
    let size = length result in
    let offset = pos_part pagination.offset in
    if leb size offset
    then []
    else let limit =
        if leb (pos_part pagination.limit) 0 then size - offset else pos_part pagination.limit in
      take (min size (offset + limit) - offset) (drop offset result)
