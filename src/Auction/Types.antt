-- ===== src/Auction/Types.antt =====
-- auction_manager.h: the data of the auction, over any type of doubles. An `int64_t` id is its bit
-- pattern; the counters count up from 1 and are not run past 2^63 - 1.
use architecture_course.Prelude.{ℕ, String, Option, some, List, [], ◌∷◌, ◌++◌, length}
use architecture_course.Prelude.Map.{Map}
use architecture_course.Prelude.Double.{Double}

pub data ItemStatus : Type 0 where
  draft active sold closed_no_bids : ItemStatus

pub record User {ℓ} (W : Type ℓ) : Type ℓ where
  pub id : ℕ
  pub name : String
  pub balance : W

pub record Bid {ℓ} (W : Type ℓ) : Type ℓ where
  pub user_id : ℕ
  pub amount : W
  pub timestamp_ms : ℕ

pub record Item {ℓ} (W : Type ℓ) : Type ℓ where
  pub id : ℕ
  pub name : String
  pub starting_bid : W
  pub current_bid : W
  pub status : ItemStatus
  pub highest_bidder_id : Option ℕ
  pub bid_history : List (Bid W)
  pub auto_bid_limits : Map ℕ W

-- The private fields of `AuctionManager`; the mutex makes every operation one step.
pub record AuctionManager {ℓ} (W : Type ℓ) : Type ℓ where
  pub users : Map ℕ (User W)
  pub items : Map ℕ (Item W)
  pub next_user_id : ℕ
  pub next_item_id : ℕ
  pub min_bid_step : W

-- `EndAuctionResult` beside its `ok` and `error`.
pub record EndAuction {ℓ} (W : Type ℓ) : Type ℓ where
  pub item : Item W
  pub winner_id : Option ℕ
  pub final_price : W

-- The readings of `NowUnixMs` during a call: the one for the bid at each position of the history.
abbrev pub Clock : Type 0
Clock = ℕ → ℕ

module _ {ℓ} {W : Type ℓ} where
  -- The four statements by which a bid is recorded, in `PlaceBid` and in `ApplyAutoBids`.
  unfoldable pub record_bid : Clock → ℕ → W → Item W → Item W
  record_bid clock user_id amount item = record item {
    current_bid = amount;
    highest_bidder_id = some user_id;
    bid_history = item.bid_history ++ (bid ∷ []);
  }
    where
      bid : Bid W
      bid = record {
        user_id = user_id;
        amount = amount;
        timestamp_ms = clock (length item.bid_history);
      }

unfoldable pub new_manager {ℓ} : {W : Type ℓ} ⦃d : Double W⦄ → AuctionManager W
new_manager ⦃d⦄ = record {
  users = [];
  items = [];
  next_user_id = 1;
  next_item_id = 1;
  min_bid_step = d.unit;
}
