-- ===== src/Shop/Tests.antt =====
-- Runs of the storage on prices in whole cents, and the theorems at concrete states.
use architecture_course.Prelude.{
  arith, take, none, false, string_eq, has, length, remove_all, some, List, [], ◌∷◌, ◌≡◌, refl,
}
use architecture_course.Prelude.Int.{pos}
use architecture_course.Prelude.Double.{Cents, cents_double}
use architecture_course.Prelude.Decimal.{to_string}
use architecture_course.Prelude.Map.{values, lookup, insert, erase}
use architecture_course.Shop.Types.{
  paginate, ProductData, CategoryData, ProductFilter, Product, Category, InMemoryStorage,
  empty_storage,
}
use architecture_course.Shop.Storage.{
  get_all_products, forget_product, delete_product, add_product, add_category, forget_category,
  delete_category, attach,
}
use architecture_course.Shop.Calls.{
  deletes_product, Call, adds_product, adds_category, deletes_category, attaches, step, run,
}
use architecture_course.Shop.Mirror.{IsMirrored, run-empty_storage-IsMirrored}
use architecture_course.Shop.Links.{IsLinked}
use architecture_course.Shop.Linked.{
  attaching, step-IsLinked, empty_storage-IsLinked, adds_bare_product, adds_bare_category,
}
use architecture_course.Shop.Types.{generated_id}
use architecture_course.Shop.Service.{
  serve_add_product, serve_edit_product, serve_delete_product, serve_add_category,
  serve_edit_category, serve_delete_category, serve_attach, serve_detach,
}
use architecture_course.Shop.Paging.{product_pages, affordable, product_pages_lem}
use architecture_course.Shop.Replies.{IsAtomic, serves_atomically}

abbrev lamp : Product Cents
lamp = record {
  id = "";
  name = "lamp";
  description = "a lamp";
  price = pos 1999;
  quantity = pos 3;
  category_ids = [];
}

abbrev light : Category
light = record { id = "light"; name = "light"; product_ids = [] }

abbrev calls : List (Call Cents)
calls =
    adds_product lamp
    ∷ adds_category light
    ∷ attaches "prod_1" "light"
    ∷ deletes_category "light"
    ∷ []

run-empty_storage-IsMirrored_example : IsMirrored (run {W = Cents} empty_storage calls)
run-empty_storage-IsMirrored_example = run-empty_storage-IsMirrored calls

abbrev stocked : InMemoryStorage Cents
stocked = step (step empty_storage (adds_product lamp)) (adds_category light)

stocked-IsLinked : IsLinked stocked
unfolding empty_storage step add_product add_category lookup
stocked-IsLinked =
    step-IsLinked _ _ (adds_bare_category light refl refl)
      (step-IsLinked empty_storage _ (adds_bare_product lamp refl refl) empty_storage-IsLinked)

step-IsLinked_example : IsLinked (step stocked (attaches "prod_1" "light"))
step-IsLinked_example = step-IsLinked stocked _ (attaching "prod_1" "light") stocked-IsLinked

lamp_lists_light :
    lookup "prod_1" (run {W = Cents} empty_storage calls).products
    ≡ some (record { product = record lamp { id = "prod_1" }; categories = [] })
unfolding empty_storage run add_product add_category attach delete_category forget_category lookup
    insert to_string has remove_all
lamp_lists_light = refl

stocked-IsMirrored : IsMirrored stocked
stocked-IsMirrored =
    unfold run in run-empty_storage-IsMirrored (adds_product lamp ∷ adds_category light ∷ [])

abbrev stored_lamp : ProductData Cents
stored_lamp = record { product = record lamp { id = "prod_1" }; categories = [] }

abbrev stored_light : CategoryData
stored_light = record { category = light; products = [] }

lamp_stored : lookup "prod_1" stocked.products ≡ some stored_lamp
unfolding empty_storage step add_product add_category lookup insert to_string
lamp_stored = refl

light_stored : lookup "light" stocked.categories ≡ some stored_light
unfolding empty_storage step add_product add_category lookup insert to_string
light_stored = refl

not_linked : has "light" stored_lamp.categories ≡ false
unfolding has
not_linked = refl

serves_atomically_example :
    (IsAtomic stocked (serve_add_product stocked (some lamp))
      × IsAtomic stocked (serve_edit_product stocked (some lamp))
      × IsAtomic stocked (serve_delete_product stocked (some lamp)))
    × (IsAtomic stocked (serve_add_category stocked none)
        × IsAtomic stocked (serve_edit_category stocked none)
        × IsAtomic stocked (serve_delete_category stocked none))
    × IsAtomic stocked (serve_attach stocked "prod_1" "light")
    × IsAtomic stocked (serve_detach stocked "prod_1" "light")
serves_atomically_example = serves_atomically stocked (some lamp) none "prod_1" "light"

-- The second of two lamps has the id that the next addition after a deletion generates.
abbrev two_lamps : InMemoryStorage Cents
two_lamps =
    step (step (step empty_storage (adds_product lamp)) (adds_product lamp))
      (deletes_product "prod_1")

second_lamp :
    lookup (generated_id "prod_" (length two_lamps.products)) two_lamps.products
    ≡ some (record { product = record lamp { id = "prod_2" }; categories = [] })
unfolding empty_storage step add_product delete_product lookup insert to_string erase forget_product
    length
second_lamp = refl

-- The product that is added next has the id of the lamp that is left, and replaces it.
second_lamp_lost :
    lookup "prod_2" (add_product two_lamps (record lamp { name = "lost" })).1.products
    ≡ some (record { product = record lamp { id = "prod_2"; name = "lost" }; categories = [] })
unfolding empty_storage step add_product delete_product lookup insert to_string erase forget_product
    length
second_lamp_lost = refl

abbrev twice_stocked : InMemoryStorage Cents
twice_stocked = run {W = Cents} empty_storage (adds_product lamp ∷ adds_product lamp ∷ [])

abbrev at_most_twenty : ProductFilter Cents
at_most_twenty = record { max_price = pos 2000 }

product_pages_lem_example :
    product_pages twice_stocked at_most_twenty 2 1
    ≡ take 2 (affordable twice_stocked at_most_twenty)
product_pages_lem_example = product_pages_lem twice_stocked at_most_twenty 2 1 (ground arith)

product_pages_two : length (product_pages twice_stocked at_most_twenty 2 1) ≡ 2
unfolding empty_storage step add_product lookup insert get_all_products paginate values run
    to_string
product_pages_two = refl
