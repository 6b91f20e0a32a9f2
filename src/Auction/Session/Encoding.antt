-- ===== src/Auction/Session/Encoding.antt =====
-- session.cpp: the JSON of the responses and events (`BuildSuccess`, `BuildError`, `UserToJson`,
-- `ItemToJson`, `StatusToString`), as values of the JSON library.
use architecture_course.Prelude.{
  ℕ, String, string_eq, Option, none, some, List, [], ◌∷◌, true, false,
}
use architecture_course.Prelude.Json.{
  Json, null, text, boolean, integer, number, object, array, braced, pushed, set_members,
}
use architecture_course.Auction.Types.{
  ItemStatus, draft, active, sold, closed_no_bids, User, Bid, Item, EndAuction,
}
use architecture_course.Auction.Session.{
  Event, user_created, balance_updated, item_added, auction_started, bid_updated, auto_bid_set,
  auction_ended, Payload, user_payload, item_payload, ended_payload, state_payload, Response,
  success, failure,
}
use architecture_course.Auction.Server.{Message, announcement, reply}

unfoldable pub status_to_string : ItemStatus → String
status_to_string draft = "draft"
status_to_string active = "active"
status_to_string sold = "sold"
status_to_string closed_no_bids = "closed_no_bids"

module _ {ℓ} {W : Type ℓ} where
  -- A `std::optional` id.
  abbrev pub id_or_null : Option ℕ → Json W
  id_or_null none = null
  id_or_null (some id) = integer id

  unfoldable pub user_to_json : User W → Json W
  user_to_json user = object (
      braced (
        ("id", integer user.id) ∷ ("name", text user.name) ∷ ("balance", number user.balance) ∷ []))

  abbrev pub bid_to_json : Bid W → Json W
  bid_to_json bid = object (
      braced (
        ("userId", integer bid.user_id)
        ∷ ("amount", number bid.amount)
        ∷ ("timestampMs", integer bid.timestamp_ms)
        ∷ []))

  abbrev pub auto_bid_to_json : ℕ × W → Json W
  auto_bid_to_json (user_id, limit) =
      object (braced (("userId", integer user_id) ∷ ("maxAmount", number limit) ∷ []))

  unfoldable pub item_to_json : Item W → Json W
  item_to_json item = object (
      braced (
        ("id", integer item.id)
        ∷ ("name", text item.name)
        ∷ ("startingBid", number item.starting_bid)
        ∷ ("currentBid", number item.current_bid)
        ∷ ("status", text (status_to_string item.status))
        ∷ ("highestBidderId", id_or_null item.highest_bidder_id)
        ∷ ("autoBids", array (pushed auto_bid_to_json item.auto_bid_limits))
        ∷ ("bidHistory", array (pushed bid_to_json item.bid_history))
        ∷ []))

  -- The members of an ended auction, in its event and its response.
  abbrev pub ended_members : EndAuction W → List (String × Json W)
  ended_members ended =
      ("item", item_to_json ended.item)
      ∷ ("winnerId", id_or_null ended.winner_id)
      ∷ ("finalPrice", number ended.final_price)
      ∷ []

  abbrev pub payload_members : Payload W → List (String × Json W)
  payload_members (user_payload user) = ("user", user_to_json user) ∷ []
  payload_members (item_payload item) = ("item", item_to_json item) ∷ []
  payload_members (ended_payload ended) = ended_members ended
  payload_members (state_payload users items) =
      ("users", array (pushed user_to_json users))
      ∷ ("items", array (pushed item_to_json items))
      ∷ []

  unfoldable pub build_success : String → Payload W → Json W
  build_success action payload = object (
      set_members (braced (payload_members payload))
        (braced (("type", text "response") ∷ ("action", text action) ∷ ("ok", boolean true) ∷ [])))

  unfoldable pub response_to_json : Response W → Json W
  response_to_json (success action payload) = build_success action payload
  response_to_json (failure action message) = object (
      braced (
        ("type", text "response")
        ∷ ("action", text action)
        ∷ ("ok", boolean false)
        ∷ ("error", text message)
        ∷ []))

  abbrev pub event_json : String → List (String × Json W) → Json W
  event_json event members =
      object (braced (("type", text "event") ∷ ("event", text event) ∷ members))

  unfoldable pub event_to_json : Event W → Json W
  event_to_json (user_created user) = event_json "user_created" (("user", user_to_json user) ∷ [])
  event_to_json (balance_updated user) =
      event_json "balance_updated" (("user", user_to_json user) ∷ [])
  event_to_json (item_added item) = event_json "item_added" (("item", item_to_json item) ∷ [])
  event_to_json (auction_started item) =
      event_json "auction_started" (("item", item_to_json item) ∷ [])
  event_to_json (bid_updated item) = event_json "bid_updated" (("item", item_to_json item) ∷ [])
  event_to_json (auto_bid_set item) = event_json "auto_bid_set" (("item", item_to_json item) ∷ [])
  event_to_json (auction_ended ended) = event_json "auction_ended" (ended_members ended)

  -- What `Deliver` prints.
  unfoldable pub message_to_json : Message W → Json W
  message_to_json (announcement event) = event_to_json event
  message_to_json (reply response) = response_to_json response
