-- ===== src/Auction/Tests.antt =====
-- Runs of the auction on amounts in whole cents, and the theorems at concrete states.
use architecture_course.Prelude.{
  nat_eq, ℕ, ◌+◌, ◌-◌, ◌/◌, ◌%◌, ◌<◌, ◌≤◌, Option, none, some, [], ◌∷◌, ◌≡◌, ◌≢◌, refl, arith,
  if◌then◌else◌, ltb, leb, Result, ok, string_eq,
}
use architecture_course.Prelude.Int.{pos, negsuc, ◌+ℤ◌}
use architecture_course.Prelude.Double.{Double, Cents, cents_double, Cents-IsIeee, ◌≼◌, least}
use architecture_course.Prelude.Map.{Map, lookup, insert}
use architecture_course.Prelude.Map.Laws.{Each, Each-insert, Each-nil}
use architecture_course.Auction.Types.{
  active, User, Item, AuctionManager, EndAuction, Clock, new_manager, record_bid,
}
use architecture_course.Auction.AutoBid.{apply_auto_bids}
use architecture_course.Auction.Manager.{
  create_user, add_item, start_auction, end_auction, place_bid, set_auto_bid, finish, settle,
}
use architecture_course.Auction.Invariant.{IsValid}
use architecture_course.Auction.Reachable.{
  Reachable, initial, creates_user, adds_item, starts_auction, places_bid, sets_auto_bid,
  Reachable-IsValid,
}
use architecture_course.Auction.Settlement.{IsSettlement, end_auction-IsSettlement}
use architecture_course.Auction.Bidding.{Extends, apply_auto_bids-Extends}
use architecture_course.Auction.Stable.{apply_auto_bids_stable}
use architecture_course.Auction.Loop.{IsSettled}
use architecture_course.Auction.Termination.{HasSteps, IsCapped, bids_total}
use architecture_course.Auction.Divergence.{Covers, apply_auto_bids_diverges}

abbrev clock : Clock
clock n = 1000 + n

-- Ann and Bob have 100.00 and 60.00; the clock is offered from 10.00.
abbrev opened : AuctionManager Cents
opened =
    (start_auction
      (add_item (create_user (create_user new_manager "ann" (pos 10000)).1 "bob" (pos 6000)).1
        "clock" (pos 1000)).1
      1).1

opened-Reachable : Reachable opened
opened-Reachable = starts_auction 1 (
    adds_item "clock" (pos 1000)
      (creates_user "bob" (pos 6000) (creates_user "ann" (pos 10000) initial)))

abbrev manager_of : Option (Result (Item Cents) × AuctionManager Cents) → AuctionManager Cents
manager_of none = new_manager
manager_of (some r) = r.1

abbrev answer_of : Option (Result (Item Cents) × AuctionManager Cents) → Result (Item Cents)
answer_of none = Result.err ""
answer_of (some r) = r.0

-- Bob bids up to 20.00 by himself; Ann bids 15.00 and is outbid.
abbrev limited : AuctionManager Cents
limited = manager_of (set_auto_bid 9 clock opened 1 2 (pos 2000))

abbrev outbid : AuctionManager Cents
outbid = manager_of (place_bid 9 clock limited 1 1 (pos 1500))

limited_step :
    set_auto_bid 9 clock opened 1 2 (pos 2000)
    ≡ some (answer_of (set_auto_bid 9 clock opened 1 2 (pos 2000)), limited)
unfolding new_manager create_user add_item start_auction set_auto_bid finish apply_auto_bids lookup
    insert record_bid
limited_step = refl

outbid_step :
    place_bid 9 clock limited 1 1 (pos 1500)
    ≡ some (answer_of (place_bid 9 clock limited 1 1 (pos 1500)), outbid)
unfolding new_manager create_user add_item start_auction set_auto_bid place_bid finish
    apply_auto_bids lookup insert record_bid
outbid_step = refl

outbid-Reachable : Reachable outbid
outbid-Reachable =
    places_bid 9 clock 1 1 (pos 1500) outbid_step
      (sets_auto_bid 9 clock 1 2 (pos 2000) limited_step opened-Reachable)

Reachable-IsValid_example : IsValid outbid
Reachable-IsValid_example = Reachable-IsValid Cents-IsIeee outbid-Reachable

-- Bob ends up with one step over Ann's bid, 16.00.
abbrev ended : Result (EndAuction Cents)
ended = (end_auction outbid 1).0

abbrev sale_of : Result (EndAuction Cents) → EndAuction Cents
sale_of (ok e) = e
sale_of (Result.err message) = record {
  item = record {
    id = 0;
    name = message;
    starting_bid = pos 0;
    current_bid = pos 0;
    status = active;
    highest_bidder_id = none;
    bid_history = [];
    auto_bid_limits = [];
  };
  winner_id = none;
  final_price = pos 0;
}

bob_pays_16 : (sale_of ended).winner_id ≡ some 2
unfolding new_manager create_user add_item start_auction set_auto_bid place_bid end_auction settle
    finish apply_auto_bids lookup insert record_bid
bob_pays_16 = refl

ended_step : end_auction outbid 1 ≡ (ok (sale_of ended), (end_auction outbid 1).1)
unfolding new_manager create_user add_item start_auction set_auto_bid place_bid end_auction settle
    finish apply_auto_bids lookup insert record_bid
ended_step = refl

end_auction-IsSettlement_example : IsSettlement outbid 1 (sale_of ended) (end_auction outbid 1).1
end_auction-IsSettlement_example =
    end_auction-IsSettlement Cents-IsIeee outbid 1 (sale_of ended) (end_auction outbid 1).1
      outbid-Reachable ended_step

-- The item of a rivalry: Ann's limit is 30.00, Bob's 25.00, and nobody has bid.
abbrev rivalry : Item Cents
rivalry = record {
  id = 1;
  name = "clock";
  starting_bid = pos 1000;
  current_bid = pos 1000;
  status = active;
  highest_bidder_id = none;
  bid_history = [];
  auto_bid_limits = (1, pos 3000) ∷ (2, pos 2500) ∷ [];
}

abbrev rivals : Map ℕ (User Cents)
rivals =
    (1, record { id = 1; name = "ann"; balance = pos 10000 })
    ∷ (2, record { id = 2; name = "bob"; balance = pos 6000 })
    ∷ []

abbrev item_of : Option (Item Cents) → Item Cents
item_of none = rivalry
item_of (some i) = i

abbrev rivalry_result : Item Cents
rivalry_result = item_of (apply_auto_bids clock rivals (pos 100) 20 rivalry)

rivalry_ends : apply_auto_bids clock rivals (pos 100) 20 rivalry ≡ some rivalry_result
unfolding apply_auto_bids record_bid lookup
rivalry_ends = refl

ann_outbids_bob : rivalry_result.highest_bidder_id ≡ some 1
unfolding apply_auto_bids record_bid lookup
ann_outbids_bob = refl

apply_auto_bids-Extends_example :
    Extends rivals (pos 100) rivalry.auto_bid_limits rivalry rivalry_result
apply_auto_bids-Extends_example =
    apply_auto_bids-Extends clock rivals (pos 100) 20 rivalry rivalry_result rivalry_ends

apply_auto_bids_stable_example : IsSettled clock rivals (pos 100) 2 rivalry_result
apply_auto_bids_stable_example =
    apply_auto_bids_stable clock rivals (pos 100) 20 rivalry rivalry_result rivalry_ends 2

-- Whole units count the steps of 1.00.
abbrev whole_units : Cents → ℕ
whole_units (pos n) = n / 100
whole_units (negsuc n) = 0

abbrev room : AuctionManager Cents
room = record {
  users = rivals;
  items = (1, rivalry) ∷ [];
  next_user_id = 3;
  next_item_id = 2;
  min_bid_step = pos 100;
}

steps_grow :
    (x : Cents)
    → pos 0 ≼ x
    → (x +ℤ pos 100) ≼ pos 10000
    → whole_units x < whole_units (x +ℤ pos 100)
steps_grow (pos n) z h = grind arith
steps_grow (negsuc n) z h = absurd (ground arith)

steps_rise : (x : Cents) → pos 0 ≼ x → (x +ℤ pos 100) ≼ pos 10000 → pos 0 ≼ (x +ℤ pos 100)
steps_rise x z h = ground arith

steps_below : (x : Cents) → x ≼ pos 10000 → whole_units x ≤ whole_units (pos 10000)
steps_below (pos n) h = ground arith
steps_below (negsuc n) h = omega arith

room_steps : HasSteps (pos 100) (pos 10000)
room_steps = record {
  rank = whole_units;
  grows = steps_grow;
  rises = steps_rise;
  below = steps_below;
}

-- What is within a balance of at most 100.00 is at most 100.00.
below_balance :
    (balance x max_amount : Cents)
    → balance ≼ pos 10000
    → x ≼ least max_amount balance
    → x ≼ pos 10000
below_balance balance x max_amount b h = ground arith

room-IsCapped : IsCapped (pos 10000) rivals
unfolding insert
room-IsCapped =
    Each-insert 2 _ (λ x l. below_balance (pos 6000) x l refl)
      (Each-insert 1 _ (λ x l. below_balance (pos 10000) x l refl) Each-nil)

room_prices : Each (λ _ (i : Item Cents). pos 0 ≼ i.current_bid) room.items
unfolding insert
room_prices = Each-insert 1 rivalry refl Each-nil

bids_total_example :
    (place_bid 101 clock room 1 2 (pos 1500) ≢ none)
    × (set_auto_bid 101 clock room 1 2 (pos 1500) ≢ none)
unfolding room_steps
bids_total_example =
    bids_total 101 clock room (pos 10000) room_steps room-IsCapped (omega arith) Cents-IsIeee
      room_prices 1 2 (pos 1500)

-- Numbers that are exact below 8 and even from 8 on, so that 8 + 1 is 8, as 2^53 + 1 is for doubles.
abbrev Coarse : Type 0
Coarse = ℕ

instance abbrev coarse_double : Double Coarse
coarse_double = record {
  nought = 0;
  unit = 1;
  lt = ltb;
  le = leb;
  add = λ x y. if ltb (x + y) 8 then x + y else x + y - (x + y) % 2;
  sub = ◌-◌;
}

abbrev big_price : Item Coarse
big_price = record {
  id = 1;
  name = "clock";
  starting_bid = 8;
  current_bid = 8;
  status = active;
  highest_bidder_id = none;
  bid_history = [];
  auto_bid_limits = (1, 20) ∷ (2, 20) ∷ [];
}

abbrev rich : Map ℕ (User Coarse)
rich =
    (1, record { id = 1; name = "ann"; balance = 50 })
    ∷ (2, record { id = 2; name = "bob"; balance = 50 })
    ∷ []

ann-Covers : Covers rich 8 1 big_price.auto_bid_limits
unfolding lookup
ann-Covers = record {
  max_amount = 20;
  user = record { id = 1; name = "ann"; balance = 50 };
  limit = refl;
  account = refl;
  covered = refl;
}

bob-Covers : Covers rich 8 2 big_price.auto_bid_limits
unfolding lookup
bob-Covers = record {
  max_amount = 20;
  user = record { id = 2; name = "bob"; balance = 50 };
  limit = refl;
  account = refl;
  covered = refl;
}

apply_auto_bids_diverges_example : apply_auto_bids clock rich 1 1000 big_price ≡ none
apply_auto_bids_diverges_example =
    apply_auto_bids_diverges clock rich 1 8 refl big_price 1 2 refl (omega arith) ann-Covers
      bob-Covers 1000
