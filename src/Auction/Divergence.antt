-- ===== src/Auction/Divergence.antt =====
-- `ApplyAutoBids` at a price that a step no longer raises, as 1.0 does not raise the double 2^53: the
-- loop does not end.
use architecture_course.Prelude.{
  nat_eq, ℕ, zero, suc, Option, none, some, true, false, ◌≡◌, ◌≢◌, refl, ◌∙◌, arith, Bool-cases, ap,
  inl, inr,
}
use architecture_course.Prelude.Map.{Map, keys, lookup}
use architecture_course.Prelude.Double.{Double, ◌≼◌, least}
use architecture_course.Auction.Types.{User, Item, Clock, record_bid}
use architecture_course.Auction.AutoBid.{sort_ids, is_highest, round, rounds, apply_auto_bids}
use architecture_course.Auction.Loop.{Outbids, IsSettled, round_quiet, round_keeps}
use architecture_course.Auction.Stable.{All-sort_ids, All-keys}

module _ {ℓ} {W : Type ℓ} ⦃d : Double W⦄ (users : Map ℕ (User W)) (price : W) where
  -- `u` has a limit and a balance that cover the price.
  pub record Covers (u : ℕ) (limits : Map ℕ W) : Type ℓ where
    pub max_amount : W
    pub user : User W
    pub limit : lookup u limits ≡ some max_amount
    pub account : lookup u users ≡ some user
    pub covered : price ≼ least max_amount user.balance

module _ {ℓ} {W : Type ℓ} ⦃d : Double W⦄ (clock : Clock) (users : Map ℕ (User W)) (step price : W)
    (absorbed : d.add price step ≡ price) where
  abbrev IsStuckAt : Map ℕ W → Item W → Type ℓ
  IsStuckAt limits i = (i.current_bid ≡ price) × (i.auto_bid_limits ≡ limits)

  Outbids-IsStuckAt :
      (limits : Map ℕ W) (u : ℕ) (i next : Item W)
      → Outbids clock users step u i next
      → IsStuckAt limits i
      → IsStuckAt limits next
  Outbids-IsStuckAt limits u i next o s =
      rw o.bid (unfold record_bid in (ap (λ x. d.add x step) s.0 ∙ absorbed, s.1))

  -- A settled user who covers the price is the highest bidder.
  settled_is_highest :
      (limits : Map ℕ W) (u : ℕ) (i : Item W)
      → Covers users price u limits
      → IsStuckAt limits i
      → IsSettled clock users step u i
      → is_highest u i.highest_bidder_id ≡ true
  settled_is_highest limits u i c s q = elim (Bool-cases (is_highest u i.highest_bidder_id)) [
    | inl h ↦ h
    | inr b ↦
        let idle = q.at c.max_amount c.user (rw s.1 c.limit) c.account b in
        cc (rw (s.0, absorbed) at idle, c.covered)
  ]

  highest_unique : (o : Option ℕ) (u v : ℕ) → is_highest u o ≡ true → is_highest v o ≡ true → u ≡ v
  highest_unique none u v h k = cc
  highest_unique (some w) u v h k = ground arith

  module _ (limits : Map ℕ W) (u v : ℕ) (differ : u ≢ v) (first : Covers users price u limits)
      (second : Covers users price v limits) where
    round_progresses :
        (i : Item W)
        → IsStuckAt limits i
        → (round clock users step (sort_ids (keys limits)) i false).1 ≡ true
    round_progresses i s =
        let order = sort_ids (keys limits) in
        elim (Bool-cases (round clock users step order i false).1) [
          | inl more ↦ more
          | inr quiet ↦
              let all =
                All-sort_ids (λ w. IsSettled clock users step w i) (keys limits)
                  (round_quiet clock users step order i quiet).1 in
              let at = λ (w : ℕ) (c : Covers users price w limits).
                All-keys (λ w. IsSettled clock users step w i) limits w c.max_amount all c.limit in
              absurd (
                differ (
                  highest_unique i.highest_bidder_id u v
                    (settled_is_highest limits u i first s (at u first))
                    (settled_is_highest limits v i second s (at v second))))
        ]

    rounds-none :
        (fuel : ℕ) (i : Item W)
        → IsStuckAt limits i
        → rounds clock users step fuel (sort_ids (keys limits)) i ≡ none
    unfolding rounds
    rounds-none zero i s = refl
    rounds-none (suc fuel) i s =
        rw (round_progresses i s, rounds)
          (rounds-none fuel _ (
            round_keeps clock users step (IsStuckAt limits) (Outbids-IsStuckAt limits) _ i false s))

  -- If one step added to the current bid leaves it unchanged, and two users have limits and
  -- balances that cover the current bid, the loop does not end, whatever the fuel.
  pub apply_auto_bids_diverges :
      (i : Item W) (u v : ℕ)
      → i.current_bid ≡ price
      → u ≢ v
      → Covers users price u i.auto_bid_limits
      → Covers users price v i.auto_bid_limits
      → (fuel : ℕ) → apply_auto_bids clock users step fuel i ≡ none
  unfolding apply_auto_bids
  apply_auto_bids_diverges i u v e differ first second fuel =
      rounds-none i.auto_bid_limits u v differ first second fuel i (e, refl)
