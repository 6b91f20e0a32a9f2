-- ===== src/Auction/Session.antt =====
-- src/websocket_auction_server/session.cpp: `HandleRequest` and `HandleAction`, and the writes of a
-- session. JSON is a parameter: what the code reads of a request are the fields of `Requests`.
pub mod Outcomes
pub mod Managers
pub mod WriteQueue
pub mod Encoding
pub mod Lossless
pub mod Telling
mod Tests
use architecture_course.Prelude.{
  ℕ, String, string_eq, Option, none, some, List, [], ◌∷◌, Bool, ◌==◌, if◌then◌else◌, Result, ok,
  err, not,
}
use architecture_course.Prelude.Double.{Double}
use architecture_course.Auction.Types.{User, Item, AuctionManager, EndAuction, Clock}
use architecture_course.Auction.Manager.{
  create_user, update_balance, add_item, start_auction, end_auction, place_bid, set_auto_bid,
  get_users, get_items,
}

-- `nlohmann::json` as the handlers read it: `is_object`, and a field of a request that is there
-- (`contains`) and of the wanted kind (`is_string`, `is_number_integer`, `is_number`).
pub record Requests {ℓ κ} (J : Type ℓ) (W : Type κ) : Type (ℓ ⊔ κ) where
  pub is_object : J → Bool
  pub string_field : String → J → Option String
  pub integer_field : String → J → Option ℕ
  pub number_field : String → J → Option W

-- The events that `Broadcast` sends.
pub data Event {ℓ} (W : Type ℓ) : Type ℓ where
  user_created balance_updated : User W → Event W
  item_added auction_started bid_updated auto_bid_set : Item W → Event W
  auction_ended : EndAuction W → Event W

pub data Payload {ℓ} (W : Type ℓ) : Type ℓ where
  user_payload : User W → Payload W
  item_payload : Item W → Payload W
  ended_payload : EndAuction W → Payload W
  state_payload : List (User W) → List (Item W) → Payload W

-- `BuildSuccess` and `BuildError`
pub data Response {ℓ} (W : Type ℓ) : Type ℓ where
  success : String → Payload W → Response W
  failure : String → String → Response W

-- The response, the broadcast events, and the manager after the request.
pub record Outcome {ℓ} (W : Type ℓ) : Type ℓ where
  pub response : Response W
  pub events : List (Event W)
  pub manager : AuctionManager W

module _ {ℓ} {W : Type ℓ} where
  abbrev pub build_error : AuctionManager W → String → String → Outcome W
  build_error m action message = record {
    response = failure action message;
    events = [];
    manager = m;
  }

  -- After a call of the manager: an error response, or the broadcast and the success response.
  unfoldable pub conclude {κ} :
      {A : Type κ}
      → String
      → (A → Event W)
      → (A → Payload W)
      → Result A × AuctionManager W
      → Outcome W
  conclude action event payload (ok a, m) = record {
    response = success action (payload a);
    events = event a ∷ [];
    manager = m;
  }
  conclude action event payload (err e, m) = build_error m action e

  abbrev pub conclude_bid :
      String → (Item W → Event W) → Option (Result (Item W) × AuctionManager W) → Option (Outcome W)
  conclude_bid action event none = none
  conclude_bid action event (some r) = some (conclude action event item_payload r)

module _ {ℓ κ} {J : Type κ} {W : Type ℓ} ⦃d : Double W⦄ (json : Requests J W) (fuel : ℕ)
    (clock : Clock) (m : AuctionManager W) (request : J) where
  open json use {is_object, string_field, integer_field, number_field}

  abbrev pub balance_or_zero : Option W → W
  balance_or_zero none = d.nought
  balance_or_zero (some b) = b

  -- The branches of `HandleAction`, one for each action.
  unfoldable pub on_create_user : String → Outcome W
  on_create_user action = elim (string_field "name" request) [
    | none ↦ build_error m action "field 'name' is required"
    | some name ↦
        conclude action user_created user_payload
          (create_user m name (balance_or_zero (number_field "balance" request)))
  ]

  unfoldable pub on_update_balance : String → Outcome W
  on_update_balance action = elim (integer_field "userId" request) [
    | none ↦ build_error m action "fields 'userId' and 'delta' are required"
    | some user_id ↦ elim (number_field "delta" request) [
      | none ↦ build_error m action "fields 'userId' and 'delta' are required"
      | some delta ↦ conclude action balance_updated user_payload (update_balance m user_id delta)
    ]
  ]

  unfoldable pub on_add_item : String → Outcome W
  on_add_item action = elim (string_field "name" request) [
    | none ↦ build_error m action "fields 'name' and 'startingBid' are required"
    | some name ↦ elim (number_field "startingBid" request) [
      | none ↦ build_error m action "fields 'name' and 'startingBid' are required"
      | some bid ↦ conclude action item_added item_payload (add_item m name bid)
    ]
  ]

  unfoldable pub on_start_auction : String → Outcome W
  on_start_auction action = elim (integer_field "itemId" request) [
    | none ↦ build_error m action "field 'itemId' is required"
    | some item_id ↦ conclude action auction_started item_payload (start_auction m item_id)
  ]

  unfoldable pub on_end_auction : String → Outcome W
  on_end_auction action = elim (integer_field "itemId" request) [
    | none ↦ build_error m action "field 'itemId' is required"
    | some item_id ↦ conclude action auction_ended ended_payload (end_auction m item_id)
  ]

  unfoldable pub on_place_bid : String → Option (Outcome W)
  on_place_bid action = elim (integer_field "itemId" request) [
    | none ↦ some (build_error m action "fields 'itemId', 'userId', 'amount' are required")
    | some item_id ↦ elim (integer_field "userId" request) [
      | none ↦ some (build_error m action "fields 'itemId', 'userId', 'amount' are required")
      | some user_id ↦ elim (number_field "amount" request) [
        | none ↦ some (build_error m action "fields 'itemId', 'userId', 'amount' are required")
        | some amount ↦
            conclude_bid action bid_updated (place_bid fuel clock m item_id user_id amount)
      ]
    ]
  ]

  unfoldable pub on_set_auto_bid : String → Option (Outcome W)
  on_set_auto_bid action = elim (integer_field "itemId" request) [
    | none ↦ some (build_error m action "fields 'itemId', 'userId', 'maxAmount' are required")
    | some item_id ↦ elim (integer_field "userId" request) [
      | none ↦ some (build_error m action "fields 'itemId', 'userId', 'maxAmount' are required")
      | some user_id ↦ elim (number_field "maxAmount" request) [
        | none ↦ some (build_error m action "fields 'itemId', 'userId', 'maxAmount' are required")
        | some limit ↦
            conclude_bid action auto_bid_set (set_auto_bid fuel clock m item_id user_id limit)
      ]
    ]
  ]

  unfoldable pub on_get_state : String → Outcome W
  on_get_state action = record {
    response = success action (state_payload (get_users m) (get_items m));
    events = [];
    manager = m;
  }

  unfoldable pub handle_action : String → Option (Outcome W)
  handle_action action =
      if action == "create_user"
      then some (on_create_user action)
      else if action == "update_balance"
      then some (on_update_balance action)
      else if action == "add_item"
      then some (on_add_item action)
      else if action == "start_auction"
      then some (on_start_auction action)
      else if action == "end_auction"
      then some (on_end_auction action)
      else if action == "place_bid"
      then on_place_bid action
      else if action == "set_auto_bid"
      then on_set_auto_bid action
      else if action == "get_state"
      then some (on_get_state action)
      else some (build_error m action "unknown action")

  unfoldable pub handle_request : Option (Outcome W)
  handle_request =
      if not (is_object request)
      then some (build_error m "unknown" "field 'action' is required")
      else elim (string_field "action" request) [
        | none ↦ some (build_error m "unknown" "field 'action' is required")
        | some action ↦ handle_action action
      ]
