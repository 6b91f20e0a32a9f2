-- ===== src/Prelude/Json.antt =====
-- The values of the JSON library, over a type of numbers, and how the sources build them.
use Prim.Native.Nat.{ℕ}
use Prim.Native.String.{String}
use mathlib.Core.Bool.{Bool}
use mathlib.Core.List.{List, [], ◌∷◌}
use mathlib.Core.Path.{◌≡◌, refl, ap₂}
use architecture_course.Prelude.Tests.{string_eq, ◌==◌, if◌then◌else◌}

mutual
  pub data Json {ℓ} (W : Type ℓ) : Type ℓ where
    null : Json W
    text : String → Json W
    boolean : Bool → Json W
    integer : ℕ → Json W
    number : W → Json W
    object : Members W → Json W
    array : Elements W → Json W

  pub data Members {ℓ} (W : Type ℓ) : Type ℓ where
    no_members : Members W
    member : String → Json W → Members W → Members W

  pub data Elements {ℓ} (W : Type ℓ) : Type ℓ where
    no_elements : Elements W
    element : Json W → Elements W → Elements W

module _ {ℓ} {W : Type ℓ} where
  -- `{{"id", ...}, {"name", ...}}`
  abbrev pub braced : List (String × Json W) → Members W
  braced [] = no_members
  braced ((key, value) ∷ rest) = member key value (braced rest)

  -- `push_back` of the values, one for each element.
  abbrev pub pushed {κ} : {A : Type κ} → (A → Json W) → List A → Elements W
  pushed f [] = no_elements
  pushed f (a ∷ rest) = element (f a) (pushed f rest)

  -- `response[key] = value`
  abbrev pub set_member : String → Json W → Members W → Members W
  set_member key value no_members = member key value no_members
  set_member key value (member found old rest) =
      let others = set_member key value rest in
      if found == key then member found value rest else member found old others

  -- The loop over the members of a payload.
  abbrev pub set_members : Members W → Members W → Members W
  set_members no_members response = response
  set_members (member key value rest) response = set_members rest (set_member key value response)

  pub pushed_injective {κ} :
      {A : Type κ} (f : A → Json W)
      → ((a b : A) → f a ≡ f b → a ≡ b)
      → (xs ys : List A) → pushed f xs ≡ pushed f ys
      → xs ≡ ys
  pushed_injective f inj [] [] e = refl
  pushed_injective f inj [] (y ∷ ys) e = cc
  pushed_injective f inj (x ∷ xs) [] e = cc
  pushed_injective f inj (x ∷ xs) (y ∷ ys) e =
      ap₂ ◌∷◌ (inj x y cc) (pushed_injective f inj xs ys cc)

  pub braced_injective : (xs ys : List (String × Json W)) → braced xs ≡ braced ys → xs ≡ ys
  braced_injective [] [] e = refl
  braced_injective [] (y ∷ ys) e = cc
  braced_injective (x ∷ xs) [] e = cc
  braced_injective (x ∷ xs) (y ∷ ys) e = let rest : xs ≡ ys = braced_injective xs ys cc in cc
