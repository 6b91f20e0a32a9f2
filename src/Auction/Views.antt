-- ===== src/Auction/Views.antt =====
-- `GetUsers` and `GetItems` list every entry once, in ascending order of ids.
use mathlib.Core.List.{Perm}
use mathlib.Core.List.Perm
use architecture_course.Prelude.{
  nat_eq, ℕ, ◌≤◌, List, [], ◌∷◌, arith, Bool-cases, inl, inr, ltb, All, All-map,
}
use architecture_course.Prelude.Map.{values}
use architecture_course.Auction.Types.{User, Item, AuctionManager}
use architecture_course.Auction.Manager.{insert_by_id, sort_by_id, get_users, get_items}

module _ {ℓ} {A : Type ℓ} (id : A → ℕ) where
  insert_by_id-perm : (a : A) (l : List A) → Perm (insert_by_id id a l) (a ∷ l)
  unfolding insert_by_id
  insert_by_id-perm a [] = Perm.refl _
  insert_by_id-perm a (b ∷ l) = elim (Bool-cases (ltb (id b) (id a))) [
    | inl h ↦
        rw (h, insert_by_id) (Perm.trans (Perm.cons b (insert_by_id-perm a l)) (Perm.swap a b l))
    | inr h ↦ rw (h, insert_by_id) (Perm.refl _)
  ]

  sort_by_id-perm : (l : List A) → Perm (sort_by_id id l) l
  unfolding sort_by_id
  sort_by_id-perm [] = Perm.refl _
  sort_by_id-perm (a ∷ l) =
      Perm.trans (insert_by_id-perm a (sort_by_id id l)) (Perm.cons a (sort_by_id-perm l))

  abbrev pub Ascending : List A → Type 0
  Ascending [] = Unit
  Ascending (a ∷ l) = All (λ b. id a ≤ id b) l × Ascending l

  All-insert_by_id :
      (P : A → Type 0) (a : A) (l : List A) → P a → All P l → All P (insert_by_id id a l)
  unfolding insert_by_id
  All-insert_by_id P a [] p h = (p, tt)
  All-insert_by_id P a (b ∷ l) p h = elim (Bool-cases (ltb (id b) (id a))) [
    | inl t ↦ rw (t, insert_by_id) (h.0, All-insert_by_id P a l p h.1)
    | inr t ↦ rw (t, insert_by_id) (p, h)
  ]

  insert_by_id-Ascending : (a : A) (l : List A) → Ascending l → Ascending (insert_by_id id a l)
  unfolding insert_by_id
  insert_by_id-Ascending a [] s = (tt, tt)
  insert_by_id-Ascending a (b ∷ l) s = elim (Bool-cases (ltb (id b) (id a))) [
    | inl t ↦
        rw (t, insert_by_id)
          (
            All-insert_by_id (λ c. id b ≤ id c) a l (ground arith) s.0,
            insert_by_id-Ascending a l s.1,
          )
    | inr t ↦
        let h : id a ≤ id b = ground arith in
        rw (t, insert_by_id)
          ((h, All-map (λ c. id b ≤ id c) (λ c. id a ≤ id c) (λ c k. omega arith) l s.0), s)
  ]

  sort_by_id-Ascending : (l : List A) → Ascending (sort_by_id id l)
  unfolding sort_by_id
  sort_by_id-Ascending [] = tt
  sort_by_id-Ascending (a ∷ l) = insert_by_id-Ascending a (sort_by_id id l) (sort_by_id-Ascending l)

module _ {ℓ} {W : Type ℓ} where
  -- `GetUsers` and `GetItems` return the stored users and items, each as often as it is stored, with
  -- ids in ascending order.
  pub views_sorted :
      (m : AuctionManager W)
      → (Ascending (λ (u : User W). u.id) (get_users m) × Perm (get_users m) (values m.users))
        × (Ascending (λ (i : Item W). i.id) (get_items m) × Perm (get_items m) (values m.items))
  unfolding get_users get_items
  views_sorted m = (
    (sort_by_id-Ascending _ (values m.users), sort_by_id-perm _ (values m.users)),
    (sort_by_id-Ascending _ (values m.items), sort_by_id-perm _ (values m.items)),
  )
