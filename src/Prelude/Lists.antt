-- ===== src/Prelude/Lists.antt =====
-- Lists measured and indexed by native numbers, under the library's names.
use Prim.Native.Nat.{ℕ, zero, suc, ◌+◌, ◌-◌, min}
use mathlib.Core.Path.{◌≡◌, refl, subst}
use mathlib.Core.List.{List, [], ◌∷◌, ◌++◌}
use mathlib.Core.Bool.{true, false, ◌||◌, Bool}
use mathlib.Core.Logic.{inl, inr}
use native.Mathlib.Omega.{arith}
use architecture_course.Prelude.Tests.{Eq, ◌==◌, if◌then◌else◌, Bool-cases}

module _ {ℓ} {A : Type ℓ} where
  abbrev pub length : List A → ℕ
  length [] = 0
  length (x ∷ xs) = suc (length xs)

  abbrev pub take : ℕ → List A → List A
  take zero xs = []
  take (suc n) [] = []
  take (suc n) (x ∷ xs) = x ∷ take n xs

  abbrev pub drop : ℕ → List A → List A
  drop zero xs = xs
  drop (suc n) [] = []
  drop (suc n) (x ∷ xs) = drop n xs

  -- `for (x : xs) if (keep(x)) result.push_back(x)`
  abbrev pub keep_if : (A → Bool) → List A → List A
  keep_if p [] = []
  keep_if p (x ∷ xs) = let rest = keep_if p xs in if p x then x ∷ rest else rest

  -- `for (x : xs) if (p(x)) count++`
  abbrev pub count_if : (A → Bool) → List A → ℕ
  count_if p [] = 0
  count_if p (x ∷ xs) = (if p x then 1 else 0) + count_if p xs

  -- A predicate of every element computes to a tuple.
  abbrev pub All {κ} : (A → Type κ) → List A → Type κ
  All P [] = Unit
  All P (x ∷ xs) = P x × All P xs

module _ {ℓ} {A : Type ℓ} where
  pub length-append : (xs ys : List A) → length (xs ++ ys) ≡ length xs + length ys
  length-append [] ys = omega arith
  length-append (x ∷ xs) ys = omega (arith, length-append xs ys)

  pub length-take : (n : ℕ) (xs : List A) → length (take n xs) ≡ min n (length xs)
  length-take zero xs = omega arith
  length-take (suc n) [] = omega arith
  length-take (suc n) (x ∷ xs) = omega (arith, length-take n xs)

  pub length-drop : (n : ℕ) (xs : List A) → length (drop n xs) ≡ length xs - n
  length-drop zero xs = omega arith
  length-drop (suc n) [] = omega arith
  length-drop (suc n) (x ∷ xs) = omega (arith, length-drop n xs)

  pub length-keep_if : (p : A → Bool) (xs : List A) → length (keep_if p xs) ≡ count_if p xs
  length-keep_if p [] = refl
  length-keep_if p (x ∷ xs) = ground (arith, length-keep_if p xs)

  -- A count of zero as a statement about every element.
  pub All-count_if : (p : A → Bool) (xs : List A) → count_if p xs ≡ 0 → All (λ x. p x ≡ false) xs
  All-count_if p [] h = tt
  All-count_if p (x ∷ xs) h = elim (Bool-cases (p x)) [
    | inl yes_x ↦ absurd (ground arith)
    | inr no_x ↦ (no_x, All-count_if p xs (ground arith))
  ]

  pub All-append {κ} : (P : A → Type κ) (xs ys : List A) → All P xs → All P ys → All P (xs ++ ys)
  All-append P [] ys here there = there
  All-append P (x ∷ xs) ys here there = (here.0, All-append P xs ys here.1 there)

  pub All-map {κ μ} :
      (P : A → Type κ) (Q : A → Type μ)
      → ((a : A) → P a → Q a)
      → (xs : List A) → All P xs
      → All Q xs
  All-map P Q f [] h = tt
  All-map P Q f (x ∷ xs) h = (f x h.0, All-map P Q f xs h.1)

-- `std::find(...) != end()`, the erasure of the element found, and the erase-remove idiom.
module _ {ℓ} {A : Type ℓ} ⦃e : Eq A⦄ where
  unfoldable pub has : A → List A → Bool
  has a [] = false
  has a (x ∷ xs) = x == a || has a xs

  unfoldable pub erase_first : A → List A → List A
  erase_first a [] = []
  erase_first a (x ∷ xs) = if x == a then xs else x ∷ erase_first a xs

  unfoldable pub remove_all : A → List A → List A
  remove_all a [] = []
  remove_all a (x ∷ xs) = let rest = remove_all a xs in if x == a then rest else x ∷ rest

  -- No element twice.
  abbrev pub Once : List A → Type 0
  Once [] = Unit
  Once (x ∷ xs) = (has x xs ≡ false) × Once xs

  pub All-has {κ} : (P : A → Type κ) (a : A) (xs : List A) → All P xs → has a xs ≡ true → P a
  unfolding has
  All-has P a [] h m = absurd (ground arith)
  All-has P a (x ∷ xs) h m = elim (Bool-cases (x == a)) [
    | inl here ↦ subst P ((e.equals_iff x a).0 here) h.0
    | inr later ↦ All-has P a xs h.1 (rw later at m)
  ]

  pub has-append : (a b : A) (xs : List A) → has a (xs ++ (b ∷ [])) ≡ (b == a || has a xs)
  unfolding has
  has-append a b [] = refl
  has-append a b (x ∷ xs) = ground (arith, has-append a b xs)

  pub has-remove_all :
      (a b : A) (xs : List A) → has a (remove_all b xs) ≡ (if b == a then false else has a xs)
  unfolding has remove_all
  has-remove_all a b [] = ground arith
  has-remove_all a b (x ∷ xs) =
      ground (arith, has-remove_all a b xs, e.equals_iff x b, e.equals_iff x a, e.equals_iff b a)

  pub has-erase_first :
      (a b : A) (xs : List A)
      → Once xs
      → has a (erase_first b xs) ≡ (if b == a then false else has a xs)
  unfolding has erase_first
  has-erase_first a b [] o = ground arith
  has-erase_first a b (x ∷ xs) o =
      ground
        (arith, has-erase_first a b xs o.1, e.equals_iff x b, e.equals_iff x a, e.equals_iff b a)

  pub Once-append : (b : A) (xs : List A) → has b xs ≡ false → Once xs → Once (xs ++ (b ∷ []))
  unfolding has
  Once-append b [] h o = (refl, tt)
  Once-append b (x ∷ xs) h o =
      ground (arith, has-append x b xs, Once-append b xs, e.equals_iff x b, e.equals_iff b x)

  pub Once-remove_all : (b : A) (xs : List A) → Once xs → Once (remove_all b xs)
  unfolding remove_all
  Once-remove_all b [] o = tt
  Once-remove_all b (x ∷ xs) o = ground (arith, Once-remove_all b xs, has-remove_all x b xs)

  pub Once-erase_first : (b : A) (xs : List A) → Once xs → Once (erase_first b xs)
  unfolding erase_first
  Once-erase_first b [] o = tt
  Once-erase_first b (x ∷ xs) o = ground (arith, Once-erase_first b xs, has-erase_first x b xs)

  -- An element that was not there is erased from where it was appended.
  pub erase_first-append :
      (b : A) (xs : List A) → has b xs ≡ false → erase_first b (xs ++ (b ∷ [])) ≡ xs
  unfolding has erase_first
  erase_first-append b [] h = ground (arith, e.equals_iff b b)
  erase_first-append b (x ∷ xs) h = ground (arith, erase_first-append b xs)
