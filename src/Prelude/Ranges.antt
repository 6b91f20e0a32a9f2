-- ===== src/Prelude/Ranges.antt =====
-- The ranges of a list: the elements from a position on, and the first of them.
use architecture_course.Prelude.{
  ℕ, zero, suc, ◌+◌, ◌≤◌, ◌≡◌, refl, sym, ap, ◌∙◌, ◌⊎◌, inl, inr, List, [], ◌∷◌, ◌++◌, arith,
  length, take, drop, ◌-◌, min, length-append, length-drop,
}

suc_add : (m n : ℕ) → suc m + n ≡ suc (m + n)
suc_add m n = omega arith

module _ {ℓ} {A : Type ℓ} where
  pub take_all : (n : ℕ) (xs : List A) → length xs ≤ n → take n xs ≡ xs
  take_all zero [] h = refl
  take_all zero (x ∷ xs) h = absurd (omega arith)
  take_all (suc n) [] h = refl
  take_all (suc n) (x ∷ xs) h = ap (λ l. x ∷ l) (take_all n xs (omega arith))

  pub take-append : (m n : ℕ) (xs : List A) → take (m + n) xs ≡ take m xs ++ take n (drop m xs)
  take-append zero n xs = ap (λ k. take k xs) (omega arith)
  take-append (suc m) zero [] = ap (λ k. take k []) (suc_add m zero)
  take-append (suc m) (suc n) [] = ap (λ k. take k []) (suc_add m (suc n))
  take-append (suc m) n (x ∷ xs) =
      ap (λ k. take k (x ∷ xs)) (suc_add m n) ∙ ap (λ l. x ∷ l) (take-append m n xs)

  pub take_same :
      (m n : ℕ) (xs : List A)
      → (m ≡ n) ⊎ ((length xs ≤ m) × (length xs ≤ n))
      → take m xs ≡ take n xs
  take_same m n xs (inl e) = ap (λ k. take k xs) e
  take_same m n xs (inr (h, k)) = take_all m xs h ∙ sym (take_all n xs k)

  pub drop_all : (n : ℕ) (xs : List A) → length xs ≤ n → drop n xs ≡ []
  drop_all zero [] h = refl
  drop_all zero (x ∷ xs) h = absurd (omega arith)
  drop_all (suc n) [] h = refl
  drop_all (suc n) (x ∷ xs) h = drop_all n xs (omega arith)

  pub drop-drop : (m n : ℕ) (xs : List A) → drop n (drop m xs) ≡ drop (m + n) xs
  drop-drop zero n xs = ap (λ k. drop k xs) (omega arith)
  drop-drop (suc m) n [] = drop_all n [] (omega arith) ∙ sym (drop_all (suc m + n) [] (omega arith))
  drop-drop (suc m) n (x ∷ xs) = drop-drop m n xs ∙ sym (ap (λ k. drop k (x ∷ xs)) (suc_add m n))

  pub drop-append : (n : ℕ) (xs ys : List A) → n ≤ length xs → drop n (xs ++ ys) ≡ drop n xs ++ ys
  drop-append zero xs ys h = refl
  drop-append (suc n) [] ys h = absurd (omega arith)
  drop-append (suc n) (x ∷ xs) ys h = drop-append n xs ys (omega arith)

-- The last `n` elements, or all of them.
abbrev pub last_of {ℓ} : {A : Type ℓ} → ℕ → List A → List A
last_of n xs = drop (length xs - n) xs

module _ {ℓ} {A : Type ℓ} where
  -- One element more, kept from the last elements, is kept from the whole list.
  pub last_of-append :
      (n : ℕ) (xs : List A) (y : A)
      → last_of n (last_of n xs ++ (y ∷ [])) ≡ last_of n (xs ++ (y ∷ []))
  last_of-append n xs y =
      let k : ℕ = length xs - n in
      let size : length (drop k xs ++ (y ∷ [])) ≡ length xs - k + 1 =
        omega (arith, length-append (drop k xs) (y ∷ []), length-drop k xs) in
      let whole : length (xs ++ (y ∷ [])) ≡ length xs + 1 =
        omega (arith, length-append xs (y ∷ [])) in
      ap (λ l. drop (length (drop k xs ++ (y ∷ [])) - n) l)
        (sym (drop-append k xs (y ∷ []) (omega arith)))
      ∙ drop-drop k (length (drop k xs ++ (y ∷ [])) - n) (xs ++ (y ∷ []))
      ∙ ap (λ j. drop j (xs ++ (y ∷ []))) (omega (arith, size, whole))

  pub length-last_of : (n : ℕ) (xs : List A) → length (last_of n xs) ≡ min n (length xs)
  length-last_of n xs = omega (arith, length-drop (length xs - n) xs)
