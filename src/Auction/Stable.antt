-- ===== src/Auction/Stable.antt =====
-- When `ApplyAutoBids` returns, no automatic bidder can outbid the highest bidder any more.
use architecture_course.Prelude.{
  inl, inr, ◌∙◌, nat_beq, nat_eq, ℕ, some, List, [], ◌∷◌, ◌≡◌, refl, Bool-cases, All, ltb, ap,
  nat_beq_iff,
}
use architecture_course.Prelude.Map.{Map, keys, lookup}
use architecture_course.Prelude.Double.{Double}
use architecture_course.Auction.Types.{User, Item, Clock, record_bid}
use architecture_course.Auction.AutoBid.{insert_id, sort_ids, apply_auto_bids}
use architecture_course.Auction.Loop.{IsSettled, rounds_keeps}

module _ {κ} (P : ℕ → Type κ) where
  All-insert_id : (u : ℕ) (us : List ℕ) → All P (insert_id u us) → P u × All P us
  unfolding insert_id
  All-insert_id u [] a = a
  All-insert_id u (v ∷ vs) a = elim (Bool-cases (ltb v u)) [
    | inl later ↦
        let (p, q) = (rw (later, insert_id) at a) in
        let (r, s) = All-insert_id u vs q in (r, (p, s))
    | inr here ↦ rw (here, insert_id) at a
  ]

  pub All-sort_ids : (us : List ℕ) → All P (sort_ids us) → All P us
  unfolding sort_ids
  All-sort_ids [] a = tt
  All-sort_ids (u ∷ us) a = let (p, q) = All-insert_id u (sort_ids us) a in (p, All-sort_ids us q)

  pub All-keys {ℓ} :
      {V : Type ℓ} (m : Map ℕ V) (k : ℕ) (v : V) → All P (keys m) → lookup k m ≡ some v → P k
  unfolding keys lookup
  All-keys [] k v a e = cc
  All-keys ((j, w) ∷ m) k v a e = elim (Bool-cases (nat_beq j k)) [
    | inl hit ↦ rw (← (nat_beq_iff j k).0 hit) a.0
    | inr miss ↦ All-keys m k v a.1 (rw (miss, lookup) at e)
  ]

module _ {ℓ} {W : Type ℓ} ⦃d : Double W⦄ (clock : Clock) (users : Map ℕ (User W)) (step : W) where
  -- The loop does not touch the limits.
  pub limits-apply_auto_bids :
      (fuel : ℕ) (item next : Item W)
      → apply_auto_bids clock users step fuel item ≡ some next
      → next.auto_bid_limits ≡ item.auto_bid_limits
  unfolding apply_auto_bids record_bid
  limits-apply_auto_bids fuel item next e =
      (rounds_keeps clock users step (λ (i : Item W). i.auto_bid_limits ≡ item.auto_bid_limits)
        (λ u i n o p. ap (λ (x : Item W). x.auto_bid_limits) o.bid ∙ p) fuel _ item next e refl).0

  -- When the loop ends, every user with a limit and an account who is not the highest bidder would
  -- have to bid above the lesser of its limit and its balance.
  pub apply_auto_bids_stable :
      (fuel : ℕ) (item next : Item W)
      → apply_auto_bids clock users step fuel item ≡ some next
      → (u : ℕ) → IsSettled clock users step u next
  unfolding apply_auto_bids
  apply_auto_bids_stable fuel item next e u = record {
    at = λ max_amount user l a b.
        let limits = limits-apply_auto_bids fuel item next e in
        let settled =
          (rounds_keeps clock users step (λ (i : Item W). Unit {0}) (λ _ _ _ _ _. tt) fuel _ item
            next e tt).1 in
        (All-keys (λ v. IsSettled clock users step v next) item.auto_bid_limits u max_amount
            (All-sort_ids _ (keys item.auto_bid_limits) settled) (rw limits at l)).at
          max_amount user l a b;
  }
