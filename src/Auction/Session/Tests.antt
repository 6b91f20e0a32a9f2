-- ===== src/Auction/Session/Tests.antt =====
-- A request and a write queue, with the theorems of the session at them.
use architecture_course.Prelude.{◌+◌, string_eq, ℕ, String, some, [], ◌∷◌, true, ◌≡◌, refl}
use architecture_course.Prelude.Int.{pos}
use architecture_course.Prelude.Double.{Cents, cents_double}
use architecture_course.Prelude.Map.{Map, lookup}
use architecture_course.Auction.Types.{new_manager}
use architecture_course.Auction.Types.{Item, sold, record_bid}
use architecture_course.Auction.Server.{Message, reply}
use architecture_course.Auction.Session.Encoding.{status_to_string}
use architecture_course.Auction.Session.Telling.{message_to_json_injective}
use architecture_course.Auction.Session.{none, Requests, handle_request, success, ended_payload}
use architecture_course.Auction.Session.Outcomes.{IsTraced, handle_request-IsTraced}
use architecture_course.Auction.Session.WriteQueue.{
  Writer, new_writer, queue_write, on_write, Posted, start, posts, completes, IsInOrder,
  Posted-IsInOrder,
}

-- A request as its fields.
pub record Fields : Type 0 where
  pub strings : Map String String
  pub integers : Map String ℕ
  pub numbers : Map String Cents

abbrev fields : Requests Fields Cents
fields = record {
  is_object = λ _. true;
  string_field = λ key request. lookup key request.strings;
  integer_field = λ key request. lookup key request.integers;
  number_field = λ key request. lookup key request.numbers;
}

abbrev clock : ℕ → ℕ
clock n = n

-- `{"action": "place_bid", "itemId": 1, "userId": 1, "amount": 15.00}`
abbrev bid_request : Fields
bid_request = record {
  strings = ("action", "place_bid") ∷ [];
  integers = ("itemId", 1) ∷ ("userId", 1) ∷ [];
  numbers = ("amount", pos 1500) ∷ [];
}

handle_request-IsTraced_example :
    IsTraced new_manager (handle_request fields 9 clock new_manager bid_request)
handle_request-IsTraced_example = handle_request-IsTraced fields 9 clock new_manager bid_request

-- Two messages are posted, and the first one is written.
abbrev two_posted : Writer String
two_posted = queue_write "b" (queue_write "a" new_writer)

two_posted-Posted : Posted ("a" ∷ "b" ∷ []) two_posted
two_posted-Posted = posts "b" (posts "a" start refl) refl

writing_a : two_posted.in_flight ≡ some "a"
unfolding new_writer queue_write
writing_a = refl

Posted-IsInOrder_example : IsInOrder ("a" ∷ "b" ∷ []) (on_write "a" two_posted)
Posted-IsInOrder_example = Posted-IsInOrder (completes "a" two_posted-Posted writing_a)

-- A sold item as an end of the auction leaves it, from its parts and written out.
abbrev lamp_opened : Item Cents
lamp_opened = record {
  id = 4;
  name = "lamp";
  starting_bid = pos 100;
  current_bid = pos 100;
  status = sold;
  highest_bidder_id = none;
  bid_history = [];
  auto_bid_limits = (7, pos 900) ∷ [];
}

abbrev lamp_sold : Item Cents
lamp_sold = record {
  id = 4;
  name = "lamp";
  starting_bid = pos 100;
  current_bid = pos 500;
  status = sold;
  highest_bidder_id = some 7;
  bid_history = record { user_id = 7; amount = pos 500; timestamp_ms = 30 } ∷ [];
  auto_bid_limits = (7, pos 900) ∷ [];
}

abbrev ended_lamp : Item Cents → Message Cents
ended_lamp lamp = reply (
    success "end_auction" (
      ended_payload (record {
        item = lamp;
        winner_id = lamp.highest_bidder_id;
        final_price = lamp.current_bid;
      })))

lamp_status : status_to_string lamp_sold.status ≡ "sold"
unfolding status_to_string
lamp_status = refl

message_to_json_injective_example :
    ended_lamp (record_bid (λ n. 30 + n) 7 (pos 500) lamp_opened) ≡ ended_lamp lamp_sold
unfolding record_bid
message_to_json_injective_example =
    message_to_json_injective (ended_lamp (record_bid (λ n. 30 + n) 7 (pos 500) lamp_opened))
      (ended_lamp lamp_sold) refl
