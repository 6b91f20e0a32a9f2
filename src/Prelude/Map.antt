-- ===== src/Prelude/Map.antt =====
-- `std::unordered_map` and `std::map` as association lists, over any key type with a test. A list
-- fixes one order of iteration; the laws on `lookup` do not depend on it.
pub mod Laws
use Prim.Native.Nat.{suc}
use mathlib.Core.Path.{◌≡◌, refl, ap}
use mathlib.Core.Bool.{Bool}
use mathlib.Core.Option.{Option, none, some}
use mathlib.Core.List.{List, [], ◌∷◌}
use architecture_course.Prelude.Tests.{Eq, ◌==◌, if◌then◌else◌, is_some}
use architecture_course.Prelude.Lists.{length}

abbrev pub Map {ℓ κ} : Type ℓ → Type κ → Type (ℓ ⊔ κ)
Map K V = List (K × V)

module _ {ℓ κ} {K : Type ℓ} {V : Type κ} where
  -- The keys and the values in the order of iteration.
  unfoldable pub keys : Map K V → List K
  keys [] = []
  keys ((k, v) ∷ m) = k ∷ keys m

  unfoldable pub values : Map K V → List V
  values [] = []
  values ((k, v) ∷ m) = v ∷ values m

  pub length-values : (m : Map K V) → length (values m) ≡ length m
  unfolding values
  length-values [] = refl
  length-values ((k, v) ∷ m) = ap suc (length-values m)

module _ {ℓ κ} {K : Type ℓ} {V : Type κ} ⦃e : Eq K⦄ where
  -- `find`, with `none` for `end()`
  unfoldable pub lookup : K → Map K V → Option V
  lookup key [] = none
  lookup key ((found, value) ∷ rest) = if found == key then some value else lookup key rest

  -- `m[k] = v`, and a write through the iterator of `find(k)`
  unfoldable pub insert : K → V → Map K V → Map K V
  insert key value [] = (key, value) ∷ []
  insert key value ((found, old) ∷ rest) =
      if found == key then (found, value) ∷ rest else (found, old) ∷ insert key value rest

  unfoldable pub erase : K → Map K V → Map K V
  erase k [] = []
  erase k ((j, v) ∷ m) = let rest = erase k m in if j == k then rest else (j, v) ∷ rest

  abbrev pub contains : K → Map K V → Bool
  contains k m = is_some (lookup k m)

  -- No key twice.
  abbrev pub Distinct : Map K V → Type κ
  Distinct [] = Unit
  Distinct ((k, v) ∷ m) = (lookup k m ≡ none) × Distinct m
