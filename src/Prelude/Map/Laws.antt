-- ===== src/Prelude/Map/Laws.antt =====
-- The laws of the maps: what `insert` and `erase` do to `lookup`, to the size and to a property of
-- every entry.
use Prim.Native.Nat.{suc}
use mathlib.Core.Path.{subst, subst₂, ◌≡◌, refl}
use mathlib.Core.Logic.{inl, inr}
use mathlib.Core.Bool.{true}
use mathlib.Core.Option.{some-injective, Option, none, some}
use mathlib.Core.List.{[], ◌∷◌}
use native.Mathlib.Omega.{arith}
use architecture_course.Prelude.Tests.{Eq, ◌==◌, if◌then◌else◌, Bool-cases}
use architecture_course.Prelude.Lists.{length, All}
use architecture_course.Prelude.Map.{
  contains, Map, lookup, insert, erase, contains, Distinct, values,
}

pub beq_refl {ℓ} : {K : Type ℓ} ⦃e : Eq K⦄ (k : K) → (k == k) ≡ true
beq_refl ⦃e⦄ k = (e.equals_iff k k).1 refl

module _ {ℓ κ} {K : Type ℓ} {V : Type κ} ⦃e : Eq K⦄ where
  pub lookup-insert :
      (k j : K) (new : V) (m : Map K V)
      → lookup j (insert k new m) ≡ (if k == j then some new else lookup j m)
  unfolding insert lookup
  lookup-insert k j new [] = refl
  lookup-insert k j new ((i, old) ∷ m) =
      ground (arith, lookup-insert k j new m, e.equals_iff i j, e.equals_iff i k, e.equals_iff k j)

  pub lookup-erase :
      (k j : K) (m : Map K V) → lookup j (erase k m) ≡ (if k == j then none else lookup j m)
  unfolding lookup erase
  lookup-erase k j [] = ground arith
  lookup-erase k j ((i, w) ∷ m) =
      ground (arith, e.equals_iff k j, e.equals_iff i k, e.equals_iff i j, lookup-erase k j m)

  pub lookup-insert_self : (k : K) (v : V) (m : Map K V) → lookup k (insert k v m) ≡ some v
  lookup-insert_self k v m = rw (lookup-insert, beq_refl)

  -- A new key changes no other.
  pub lookup-insert_new :
      (k j : K) (v w : V) (m : Map K V)
      → lookup k m ≡ none
      → lookup j m ≡ some w
      → lookup j (insert k v m) ≡ some w
  lookup-insert_new k j v w m h q = elim (Bool-cases (k == j)) [
    | inl same ↦
        let no_key : lookup j m ≡ none =
          subst (λ i. lookup i m ≡ none) ((e.equals_iff k j).0 same) h in
        absurd (ground (arith, no_key, q))
    | inr other ↦ rw (lookup-insert, other) q
  ]

  pub lookup-erase_self : (k : K) (m : Map K V) → lookup k (erase k m) ≡ none
  lookup-erase_self k m = rw (lookup-erase, beq_refl)

  pub insert-Distinct : (k : K) (v : V) (m : Map K V) → Distinct m → Distinct (insert k v m)
  unfolding insert lookup
  insert-Distinct k v [] d = (refl, tt)
  insert-Distinct k v ((i, w) ∷ m) d =
      ground
        (arith, e.equals_iff i k, e.equals_iff k i, insert-Distinct k v m, lookup-insert k i v m)

  pub erase-Distinct : (k : K) (m : Map K V) → Distinct m → Distinct (erase k m)
  unfolding erase
  erase-Distinct k [] d = tt
  erase-Distinct k ((i, w) ∷ m) d =
      ground (arith, e.equals_iff k i, erase-Distinct k m, lookup-erase k i m)

  pub length-insert :
      (k : K) (v : V) (m : Map K V)
      → length (insert k v m) ≡ (if contains k m then length m else suc (length m))
  unfolding insert lookup
  length-insert k v [] = refl
  length-insert k v ((i, w) ∷ m) = ground (arith, length-insert k v m)

  pub erase_absent : (k : K) (m : Map K V) → lookup k m ≡ none → erase k m ≡ m
  unfolding erase lookup
  erase_absent k [] h = refl
  erase_absent k ((i, w) ∷ m) h = ground (arith, erase_absent k m)

  pub length-erase :
      (k : K) (m : Map K V)
      → Distinct m
      → (if contains k m then suc (length (erase k m)) else length (erase k m)) ≡ length m
  unfolding erase lookup
  length-erase k [] d = refl
  length-erase k ((i, w) ∷ m) d =
      ground (arith, length-erase k m, e.equals_iff i k, erase_absent k m)

  pub insert-insert : (k : K) (v w : V) (m : Map K V) → insert k v (insert k w m) ≡ insert k v m
  unfolding insert
  insert-insert k v w [] = ground (arith, e.equals_iff k k)
  insert-insert k v w ((i, x) ∷ m) = ground (arith, insert-insert k v w m)

  -- Writing back what is there changes nothing.
  pub insert_same : (k : K) (v : V) (m : Map K V) → lookup k m ≡ some v → insert k v m ≡ m
  unfolding insert lookup
  insert_same k v [] h = cc
  insert_same k v ((i, x) ∷ m) h = ground (arith, insert_same k v m)

  -- What is found is one of the values.
  pub lookup-All {μ} :
      (P : V → Type μ) (k : K) (m : Map K V) {v : V} → All P (values m) → lookup k m ≡ some v → P v
  unfolding lookup values
  lookup-All P k [] a h = absurd (ground arith)
  lookup-All P k ((i, x) ∷ m) a h = elim (Bool-cases (i == k)) [
    | inl hit ↦ subst P (some-injective _ _ (rw hit at h)) a.0
    | inr miss ↦ lookup-All P k m a.1 (rw miss at h)
  ]

  -- A write never removes a key.
  pub contains-insert :
      (k j : K) (v : V) (m : Map K V) → contains j m ≡ true → contains j (insert k v m) ≡ true
  contains-insert k j v m h = ground (arith, lookup-insert k j v m)

  -- A property of every entry, stated by `lookup`.
  pub record Each {μ} (P : K → V → Type μ) (m : Map K V) : Type (ℓ ⊔ κ ⊔ μ) where
    pub at : (k : K) (v : V) → lookup k m ≡ some v → P k v

  Each-insert_at {μ} :
      (P : K → V → Type μ) (k j : K) (v w : V) (o : Option V)
      → P k v
      → (o ≡ some w → P j w)
      → (if k == j then some v else o) ≡ some w
      → P j w
  Each-insert_at P k j v w o p old q = elim (Bool-cases (k == j)) [
    | inl hit ↦ subst₂ P ((e.equals_iff k j).0 hit) (some-injective _ _ (rw hit at q)) p
    | inr miss ↦ old (rw miss at q)
  ]

  pub Each-insert {μ} :
      {P : K → V → Type μ} (k : K) (v : V) {m : Map K V} → P k v → Each P m → Each P (insert k v m)
  Each-insert {P} k v {m} p h = record {
    at = λ j w q. Each-insert_at P k j v w (lookup j m) p (h.at j w) (rw lookup-insert at q);
  }

  pub Each-erase {μ} : {P : K → V → Type μ} (k : K) {m : Map K V} → Each P m → Each P (erase k m)
  Each-erase k {m} h = record { at = λ j w q. h.at j w (ground (arith, lookup-erase k j m)) }

  -- A weaker property of every entry.
  pub Each-map {μ ν} :
      {P : K → V → Type μ} {Q : K → V → Type ν} {m : Map K V}
      → ((k : K) (v : V) → P k v → Q k v)
      → Each P m
      → Each Q m
  Each-map f h = record { at = λ k v q. f k v (h.at k v q) }

pub Each-nil {ℓ κ μ} : {K : Type ℓ} {V : Type κ} ⦃e : Eq K⦄ {P : K → V → Type μ} → Each P []
unfolding lookup
Each-nil = record { at = λ k v q. cc }
