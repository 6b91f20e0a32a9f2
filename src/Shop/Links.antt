-- ===== src/Shop/Links.antt =====
-- Links between products and categories, seen from both sides.
use architecture_course.Prelude.{
  string_eq, String, none, some, List, Bool, false, ◌≡◌, eq_iff, ◌==◌, if◌then◌else◌, arith,
  Bool-cases, Option-cases, inl, inr, has, has-append, has-erase_first, Once, Once-append,
  Once-erase_first,
}
use architecture_course.Prelude.Map.{Map, lookup, insert, erase}
use architecture_course.Prelude.Map.Laws.{Each, Each-insert, lookup-insert, lookup-erase}
use architecture_course.Shop.Types.{ProductData, CategoryData, InMemoryStorage}
use architecture_course.Shop.Storage.{attach, detach}

-- The entry at `key` exists and its list holds `id`.
module _ {ℓ} {V : Type ℓ} (list : V → List String) where
  abbrev pub lists : String → String → Map String V → Bool
  lists key id m = elim (lookup key m) [ none ↦ false | some v ↦ has id (list v) ]

  pub lists-insert :
      (k j id : String) (v : V) (m : Map String V)
      → lists j id (insert k v m) ≡ (if k == j then has id (list v) else lists j id m)
  lists-insert k j id v m = ground (arith, lookup-insert k j v m)

  pub lists-erase :
      (k j id : String) (m : Map String V)
      → lists j id (erase k m) ≡ (if k == j then false else lists j id m)
  lists-erase k j id m = ground (arith, lookup-erase k j m)

abbrev pub products_of : CategoryData → List String
products_of c = c.products

module _ {ℓ} {W : Type ℓ} where
  abbrev pub categories_of : ProductData W → List String
  categories_of p = p.categories

  -- A product lists a category exactly if the category lists the product (a missing entry lists
  -- nothing), and no list holds an id twice.
  pub record IsLinked (s : InMemoryStorage W) : Type ℓ where
    pub agree :
        (p c : String) → lists categories_of p c s.products ≡ lists products_of c p s.categories
    pub products : Each (λ _ (x : ProductData W). Once x.categories) s.products
    pub categories : Each (λ _ (y : CategoryData). Once y.products) s.categories

  pub attach-IsLinked :
      (s : InMemoryStorage W) (p c : String) → IsLinked s → IsLinked (attach s p c).1
  unfolding attach
  attach-IsLinked s p c h = elim (Option-cases (lookup p s.products)) [
    | inl e ↦ rw (e, attach) h
    | inr (x, e) ↦ elim (Option-cases (lookup c s.categories)) [
      | inl f ↦ rw (e, f, attach) h
      | inr (y, f) ↦ elim (Bool-cases (has c x.categories)) [
        | inl b ↦ rw (e, f, attach, b) h
        | inr b ↦
            let known = h.agree p c in
            let b' : has p y.products ≡ false = ground arith in
            rw (e, f, attach, b)
              (record {
                agree = λ q d.
                    rw (lists-insert categories_of p q d, lists-insert products_of c d q)
                      (ground (
                        arith,
                        eq_iff p q,
                        eq_iff c d,
                        h.agree q d,
                        has-append d c x.categories,
                        has-append q p y.products,
                      ));
                products =
                    Each-insert p _ (Once-append c x.categories b (h.products.at p x e)) h.products;
                categories =
                    Each-insert c _ (Once-append p y.products b' (h.categories.at c y f))
                      h.categories;
              })
      ]
    ]
  ]

  pub detach-IsLinked :
      (s : InMemoryStorage W) (p c : String) → IsLinked s → IsLinked (detach s p c).1
  unfolding detach
  detach-IsLinked s p c h = elim (Option-cases (lookup p s.products)) [
    | inl e ↦ rw (e, detach) h
    | inr (x, e) ↦ elim (Option-cases (lookup c s.categories)) [
      | inl f ↦ rw (e, f, detach) h
      | inr (y, f) ↦
          let ox = h.products.at p x e in
          let oy = h.categories.at c y f in
          rw (e, f, detach)
            (record {
              agree = λ q d.
                  rw (lists-insert categories_of p q d, lists-insert products_of c d q)
                    (ground (
                      arith,
                      eq_iff p q,
                      eq_iff c d,
                      h.agree q d,
                      h.agree p c,
                      has-erase_first d c x.categories ox,
                      has-erase_first q p y.products oy,
                    ));
              products =
                  Each-insert p _ (ground (arith, Once-erase_first c x.categories ox)) h.products;
              categories =
                  Each-insert c _ (ground (arith, Once-erase_first p y.products oy)) h.categories;
            })
    ]
  ]
