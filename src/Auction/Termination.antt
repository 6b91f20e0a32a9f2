-- ===== src/Auction/Termination.antt =====
-- The loop of `ApplyAutoBids` ends while adding the step still raises the price, and does not end once
-- it does not.
use architecture_course.Prelude.{
  ◌⊎◌, nat_eq, ℕ, zero, suc, ◌-◌, ◌<◌, ◌≤◌, none, List, [], ◌∷◌, Bool, true, false, ◌≡◌, ◌≢◌, refl,
  arith, Bool-cases, Option-cases, inl, inr,
}
use architecture_course.Prelude.Map.{insert, Map, lookup}
use architecture_course.Prelude.Map.Laws.{Each}
use architecture_course.Prelude.Double.{IsIeee, ◌≺◌, Double, ◌≼◌, least}
use architecture_course.Auction.Types.{User, Item, AuctionManager, Clock, record_bid}
use architecture_course.Auction.AutoBid.{auto_bid, round, rounds, apply_auto_bids}
use architecture_course.Auction.Loop.{Outbids, auto_bid-Outbids}
use architecture_course.Auction.Manager.{finish, place_bid, set_auto_bid}

module _ {ℓ} {W : Type ℓ} ⦃d : Double W⦄ where
  -- From a price that is not negative, and up to `top`, a step raises the price, and only boundedly
  -- many steps fit below `top`. Doubles have such a rank for every `top` below 2^53: the whole part.
  pub record HasSteps (step top : W) : Type ℓ where
    pub rank : W → ℕ
    pub grows : (x : W) → d.nought ≼ x → d.add x step ≼ top → rank x < rank (d.add x step)
    pub rises : (x : W) → d.nought ≼ x → d.add x step ≼ top → d.nought ≼ d.add x step
    pub below : (x : W) → x ≼ top → rank x ≤ rank top

  -- Nobody can afford more than `top`.
  abbrev pub IsCapped : W → Map ℕ (User W) → Type ℓ
  IsCapped top =
      Each (λ _ (u : User W). (x max_amount : W) → x ≼ least max_amount u.balance → x ≼ top)

  module _ (clock : Clock) (users : Map ℕ (User W)) (step top : W) (steps : HasSteps step top)
      (capped : IsCapped top users) where
    open steps use {rank, grows, rises, below}

    abbrev Advances : Item W → Item W → Type 0
    Advances i next =
        (d.nought ≼ next.current_bid)
        × (rank i.current_bid < rank next.current_bid)
        × (rank next.current_bid ≤ rank top)

    Outbids-Advances :
        (u : ℕ) (i next : Item W)
        → Outbids clock users step u i next
        → d.nought ≼ i.current_bid
        → Advances i next
    Outbids-Advances u i next o z =
        let fits = capped.at u o.user o.account _ o.max_amount o.affordable in
        rw o.bid (
          unfold record_bid in
          (rises i.current_bid z fits, grows i.current_bid z fits, below _ fits))

    -- A round changes nothing or raises the rank, and stays below the top.
    round-Advances :
        (order : List ℕ) (i : Item W) (b : Bool)
        → d.nought ≼ i.current_bid
        → let r = round clock users step order i b in ((r.0 ≡ i) × (r.1 ≡ b)) ⊎ Advances i r.0
    unfolding round
    round-Advances [] i b z = inl (refl, refl)
    round-Advances (u ∷ us) i b z = elim (Option-cases (auto_bid clock users step u i)) [
      | inl e ↦ rw (e, round) (round-Advances us i b z)
      | inr (next, e) ↦
          let o = Outbids-Advances u i next (auto_bid-Outbids clock users step u i next e) z in
          rw (e, round) (inr (then_advances i next _ o (round-Advances us next true o.0)))
    ]
      where
        then_advances :
            (i next last : Item W)
            → Advances i next
            → {b c : Bool} → ((last ≡ next) × (b ≡ c)) ⊎ Advances next last
            → Advances i last
        then_advances i next last o (inl (e, _)) = rw e o
        then_advances i next last o (inr a) = (a.0, omega (arith, o.1, a.1), a.2)

    rounds_total :
        (fuel : ℕ) (order : List ℕ) (i : Item W)
        → d.nought ≼ i.current_bid
        → rank top - rank i.current_bid < fuel
        → rounds clock users step fuel order i ≢ none
    unfolding rounds
    rounds_total zero order i z h q = absurd (omega arith)
    rounds_total (suc fuel) order i z h q =
        let r = round clock users step order i false in
        elim (Bool-cases r.1) [
          | inr quiet ↦ cc (rw (quiet, rounds) at q)
          | inl more ↦ elim (round-Advances order i false z) [
            | inl same ↦ cc (same.1, more)
            | inr up ↦
                rounds_total fuel order r.0 up.0 (omega (arith, up.1, up.2))
                  (rw (more, rounds) at q)
          ]
        ]

    pub apply_auto_bids_total :
        (fuel : ℕ) (i : Item W)
        → d.nought ≼ i.current_bid
        → rank top < fuel
        → apply_auto_bids clock users step fuel i ≢ none
    unfolding apply_auto_bids
    apply_auto_bids_total fuel i z h = rounds_total fuel _ i z (omega arith)

  module _ (fuel : ℕ) (clock : Clock) (m : AuctionManager W) (top : W)
      (steps : HasSteps m.min_bid_step top) (capped : IsCapped top m.users)
      (enough : steps.rank top < fuel) where
    finish_total : (k : ℕ) (i : Item W) → d.nought ≼ i.current_bid → finish fuel clock m k i ≢ none
    unfolding finish
    finish_total k i z q =
        elim (Option-cases (apply_auto_bids clock m.users m.min_bid_step fuel i)) [
          | inl e ↦
              apply_auto_bids_total clock m.users m.min_bid_step top steps capped fuel i z enough e
          | inr (next, e) ↦ cc (rw (e, finish) at q)
        ]

    finish_bid_total :
        (k u : ℕ) (i : Item W) (amount : W)
        → d.nought ≼ amount
        → finish fuel clock m k (record_bid clock u amount i) ≢ none
    finish_bid_total k u i amount z = finish_total k _ (unfold record_bid in z)

    -- `PlaceBid` and `SetAutoBid` answer where no price is negative, a step raises the price up to what
    -- anyone can afford, and the fuel exceeds the number of steps below that.
    pub bids_total :
        (laws : IsIeee W)
        → Each (λ _ (i : Item W). d.nought ≼ i.current_bid) m.items
        → (k u : ℕ) (amount : W)
        → (place_bid fuel clock m k u amount ≢ none) × (set_auto_bid fuel clock m k u amount ≢ none)
    unfolding place_bid set_auto_bid
    bids_total laws z k u amount = elim (Option-cases (lookup k m.items)) [
      | inl e ↦ (ground arith, ground arith)
      | inr (i, e) ↦
          let low = z.at k i e in
          let over =
            λ (h : i.current_bid ≺ amount). laws.le_trans _ _ _ low (laws.le_of_lt _ _ h) in
          (
            ground (arith, over, finish_bid_total k u i amount),
            ground (
              arith,
              finish_total k (record i { auto_bid_limits = insert u amount i.auto_bid_limits }),
            ),
          )
    ]
