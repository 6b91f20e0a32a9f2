-- ===== src/Auction/Loop.antt =====
-- The loop of `ApplyAutoBids`: what one iteration does, and the rule by which every property that an
-- automatic bid keeps holds after the loop.
use architecture_course.Prelude.{
  nat_eq, ℕ, zero, suc, none, some, List, [], ◌∷◌, Bool, true, false, ◌≡◌, refl, inl, inr, arith,
  Bool-cases, Option-cases, All,
}
use architecture_course.Prelude.Map.{Map, lookup}
use architecture_course.Prelude.Double.{Double, ◌≼◌, least}
use architecture_course.Auction.Types.{User, Item, Clock, record_bid}
use architecture_course.Auction.AutoBid.{is_highest, auto_bid, round, rounds}

module _ {ℓ} {W : Type ℓ} ⦃d : Double W⦄ (clock : Clock) (users : Map ℕ (User W)) (step : W) where
  -- An iteration bids for `u`: it does not hold the highest bid, and one step above the current bid
  -- is within its limit and its balance.
  pub record Outbids (u : ℕ) (item next : Item W) : Type ℓ where
    pub max_amount : W
    pub user : User W
    pub limit : lookup u item.auto_bid_limits ≡ some max_amount
    pub account : lookup u users ≡ some user
    pub behind : is_highest u item.highest_bidder_id ≡ false
    pub affordable : d.add item.current_bid step ≼ least max_amount user.balance
    pub bid : next ≡ record_bid clock u (d.add item.current_bid step) item

  -- Nothing is left to do for `u`.
  pub record IsSettled (u : ℕ) (item : Item W) : Type ℓ where
    pub at :
        (max_amount : W) (user : User W)
        → lookup u item.auto_bid_limits ≡ some max_amount
        → lookup u users ≡ some user
        → is_highest u item.highest_bidder_id ≡ false
        → d.le (d.add item.current_bid step) (least max_amount user.balance) ≡ false

  pub auto_bid-Outbids :
      (u : ℕ) (item next : Item W)
      → auto_bid clock users step u item ≡ some next
      → Outbids u item next
  unfolding auto_bid
  auto_bid-Outbids u item next e = elim (Option-cases (lookup u item.auto_bid_limits)) [
    | inl l ↦ absurd (ground arith)
    | inr (max_amount, l) ↦ elim (Option-cases (lookup u users)) [
      | inl a ↦ absurd (ground arith)
      | inr (user, a) ↦ record {
        max_amount = max_amount;
        user = user;
        limit = l;
        account = a;
        behind = ground arith;
        affordable = ground arith;
        bid = ground arith;
      }
    ]
  ]

  pub auto_bid-IsSettled :
      (u : ℕ) (item : Item W) → auto_bid clock users step u item ≡ none → IsSettled u item
  unfolding auto_bid
  auto_bid-IsSettled u item e = record { at = λ max_amount user l a b. ground arith }

  -- A round that reports no progress changed nothing and settled everyone in its order.
  round_progressed :
      (order : List ℕ) (item : Item W) → (round clock users step order item true).1 ≡ true
  unfolding round
  round_progressed [] item = refl
  round_progressed (u ∷ us) item = elim (Option-cases (auto_bid clock users step u item)) [
    | inl e ↦ rw (e, round) (round_progressed us item)
    | inr (next, e) ↦ rw (e, round) (round_progressed us next)
  ]

  pub round_quiet :
      (order : List ℕ) (item : Item W)
      → (round clock users step order item false).1 ≡ false
      → ((round clock users step order item false).0 ≡ item) × All (λ u. IsSettled u item) order
  unfolding round
  round_quiet [] item e = (refl, tt)
  round_quiet (u ∷ us) item e = elim (Option-cases (auto_bid clock users step u item)) [
    | inl n ↦
        let (same, rest) = round_quiet us item (rw (n, round) at e) in
        (rw (n, round) same, (auto_bid-IsSettled u item n, rest))
    | inr (next, n) ↦
        let q : (round clock users step us next true).1 ≡ false = rw (n, round) at e in
        cc (round_progressed us next)
  ]

  module _ {κ} (P : Item W → Type κ)
      (keep : (u : ℕ) (item next : Item W) → Outbids u item next → P item → P next) where
    pub round_keeps :
        (order : List ℕ) (item : Item W) (b : Bool)
        → P item
        → P (round clock users step order item b).0
    unfolding round
    round_keeps [] item b p = p
    round_keeps (u ∷ us) item b p = elim (Option-cases (auto_bid clock users step u item)) [
      | inl e ↦ rw (e, round) (round_keeps us item b p)
      | inr (next, e) ↦
          rw (e, round)
            (round_keeps us next true (keep u item next (auto_bid-Outbids u item next e) p))
    ]

    -- What every automatic bid keeps, the loop keeps; and the loop stops at an item at which
    -- everyone in its order is settled.
    pub rounds_keeps :
        (fuel : ℕ) (order : List ℕ) (item next : Item W)
        → rounds clock users step fuel order item ≡ some next
        → P item
        → P next × All (λ u. IsSettled u next) order
    unfolding rounds
    rounds_keeps zero order item next e p = cc
    rounds_keeps (suc fuel) order item next e p =
        let r = round clock users step order item false in
        elim (Bool-cases r.1) [
          | inl more ↦
              rounds_keeps fuel order r.0 next (rw (more, rounds) at e)
                (round_keeps order item false p)
          | inr quiet ↦
              let q : r.0 ≡ next = ground arith in
              let (same, settled) = round_quiet order item quiet in rw (← q, same) (p, settled)
        ]
