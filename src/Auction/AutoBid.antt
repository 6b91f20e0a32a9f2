-- ===== src/Auction/AutoBid.antt =====
-- `AuctionManager::ApplyAutoBids`. A round goes through the users with a limit in ascending order;
-- rounds follow until one places no bid. `none` means that the fuel ran out.
use architecture_course.Prelude.{
  nat_eq, ℕ, zero, suc, Option, none, some, List, [], ◌∷◌, Bool, true, false, ltb, ◌==◌,
  if◌then◌else◌,
}
use architecture_course.Prelude.Map.{Map, keys, lookup}
use architecture_course.Prelude.Double.{Double, least}
use architecture_course.Auction.Types.{User, Item, Clock, record_bid}

-- `std::sort` of ids
unfoldable pub insert_id : ℕ → List ℕ → List ℕ
insert_id u [] = u ∷ []
insert_id u (v ∷ vs) = if ltb v u then v ∷ insert_id u vs else u ∷ v ∷ vs

unfoldable pub sort_ids : List ℕ → List ℕ
unfolding insert_id
sort_ids [] = []
sort_ids (u ∷ us) = insert_id u (sort_ids us)

abbrev pub is_highest : ℕ → Option ℕ → Bool
is_highest u none = false
is_highest u (some v) = v == u

module _ {ℓ} {W : Type ℓ} ⦃d : Double W⦄ (clock : Clock) (users : Map ℕ (User W)) (step : W) where
  -- The body of the `for` loop with the limit and the account found; `none` is no bid.
  unfoldable pub bid_within : ℕ → W → User W → Item W → Option (Item W)
  bid_within u max_amount user item =
      let next_amount = d.add item.current_bid step in
      if d.le next_amount (least max_amount user.balance)
      then some (record_bid clock u next_amount item)
      else none

  -- One iteration of the `for` loop; `none` is `continue`, or an iteration that places no bid.
  unfoldable pub auto_bid : ℕ → Item W → Option (Item W)
  unfolding bid_within
  auto_bid u item =
      if is_highest u item.highest_bidder_id then none else elim (lookup u item.auto_bid_limits) [
        | none ↦ none
        | some max_amount ↦ elim (lookup u users) [
          | none ↦ none
          | some user ↦ bid_within u max_amount user item
        ]
      ]

  -- The `for` loop, with `progressed`.
  unfoldable pub round : List ℕ → Item W → Bool → Item W × Bool
  round [] item progressed = (item, progressed)
  round (u ∷ us) item progressed = elim (auto_bid u item) [
    | none ↦ round us item progressed
    | some next ↦ round us next true
  ]

  -- The `while` loop.
  unfoldable pub rounds : ℕ → List ℕ → Item W → Option (Item W)
  rounds zero order item = none
  rounds (suc fuel) order item =
      let (next, progressed) = round order item false in
      elim progressed [ true ↦ rounds fuel order next | false ↦ some next ]

  unfoldable pub apply_auto_bids : ℕ → Item W → Option (Item W)
  unfolding sort_ids keys rounds round auto_bid
  apply_auto_bids fuel item = rounds fuel (sort_ids (keys item.auto_bid_limits)) item
