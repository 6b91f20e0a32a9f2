-- ===== src/Shop/Calls.antt =====
-- The calls that change the storage, one at a time under its mutex.
use architecture_course.Prelude.{string_eq, String, List, [], ◌∷◌}
use architecture_course.Shop.Types.{Product, Category, InMemoryStorage}
use architecture_course.Shop.Storage.{
  add_product, edit_product, delete_product, add_category, edit_category, delete_category, attach,
  detach,
}

-- The calls that change the storage.
pub data Call {ℓ} (W : Type ℓ) : Type ℓ where
  adds_product edits_product : Product W → Call W
  adds_category edits_category : Category → Call W
  deletes_product deletes_category : String → Call W
  attaches detaches : String → String → Call W

module _ {ℓ} {W : Type ℓ} where
  unfoldable pub step : InMemoryStorage W → Call W → InMemoryStorage W
  step s (adds_product p) = (add_product s p).1
  step s (edits_product p) = (edit_product s p).1
  step s (adds_category c) = (add_category s c).1
  step s (edits_category c) = (edit_category s c).1
  step s (deletes_product id) = (delete_product s id).1
  step s (deletes_category id) = (delete_category s id).1
  step s (attaches p c) = (attach s p c).1
  step s (detaches p c) = (detach s p c).1

  unfoldable pub run : InMemoryStorage W → List (Call W) → InMemoryStorage W
  unfolding step
  run s [] = s
  run s (c ∷ cs) = run (step s c) cs
