-- ===== src/Auction/Session/Telling.antt =====
-- Two messages to a client, events or responses, with the same JSON are the same.
use architecture_course.Prelude.{
  eq_iff, String, string_eq, Option, none, some, ◌≡◌, refl, sym, ap, ◌∙◌, arith, ◌==◌,
  if◌then◌else◌,
}
use mathlib.Core.Path.{ap₂}
use architecture_course.Prelude.Json.{braced, braced_injective}
use architecture_course.Auction.Session.{
  Event, user_created, balance_updated, item_added, auction_started, bid_updated, auto_bid_set,
  auction_ended, Payload, user_payload, item_payload, ended_payload, state_payload, Response,
  success, failure,
}
use architecture_course.Auction.Session.Encoding.{
  payload_members, event_json, response_to_json, event_to_json,
}
use architecture_course.Auction.Session.Encoding.{message_to_json}
use architecture_course.Auction.Server.{Message, announcement, reply}
use architecture_course.Auction.Session.Lossless.{
  payload_members_injective, build_success_lem, response_to_json_injective,
}

module _ {ℓ} {W : Type ℓ} where
  -- The name of an event in its JSON, and its content as that of a response.
  abbrev event_name : Event W → String
  event_name (user_created user) = "user_created"
  event_name (balance_updated user) = "balance_updated"
  event_name (item_added item) = "item_added"
  event_name (auction_started item) = "auction_started"
  event_name (bid_updated item) = "bid_updated"
  event_name (auto_bid_set item) = "auto_bid_set"
  event_name (auction_ended ended) = "auction_ended"

  abbrev event_payload : Event W → Payload W
  event_payload (user_created user) = user_payload user
  event_payload (balance_updated user) = user_payload user
  event_payload (item_added item) = item_payload item
  event_payload (auction_started item) = item_payload item
  event_payload (bid_updated item) = item_payload item
  event_payload (auto_bid_set item) = item_payload item
  event_payload (auction_ended ended) = ended_payload ended

  event_to_json_lem :
      (x : Event W)
      → event_to_json x ≡ event_json (event_name x) (payload_members (event_payload x))
  unfolding event_to_json
  event_to_json_lem (user_created user) = refl
  event_to_json_lem (balance_updated user) = refl
  event_to_json_lem (item_added item) = refl
  event_to_json_lem (auction_started item) = refl
  event_to_json_lem (bid_updated item) = refl
  event_to_json_lem (auto_bid_set item) = refl
  event_to_json_lem (auction_ended ended) = refl

  -- The event of a name and a content.
  abbrev event_read : String → Payload W → Option (Event W)
  event_read name (user_payload user) =
      if name == "user_created" then some (user_created user) else some (balance_updated user)
  event_read name (item_payload item) =
      if name == "item_added"
      then some (item_added item)
      else if name == "auction_started"
      then some (auction_started item)
      else if name == "bid_updated"
      then some (bid_updated item)
      else some (auto_bid_set item)
  event_read name (ended_payload ended) = some (auction_ended ended)
  event_read name (state_payload users items) = none

  event_read_lem : (x : Event W) → event_read (event_name x) (event_payload x) ≡ some x
  event_read_lem (user_created user) = refl
  event_read_lem (balance_updated user) = refl
  event_read_lem (item_added item) = refl
  event_read_lem (auction_started item) = refl
  event_read_lem (bid_updated item) = refl
  event_read_lem (auto_bid_set item) = refl
  event_read_lem (auction_ended ended) = refl

  event_to_json_injective : (x y : Event W) → event_to_json x ≡ event_to_json y → x ≡ y
  event_to_json_injective x y e =
      let same = sym (event_to_json_lem x) ∙ e ∙ event_to_json_lem y in
      let members : braced (payload_members (event_payload x))
          ≡ braced (payload_members (event_payload y)) =
        cc in
      let names : event_name x ≡ event_name y = cc in
      let payloads : event_payload x ≡ event_payload y =
        payload_members_injective _ _ (braced_injective _ _ members) in
      let read : some x ≡ some y =
        sym (event_read_lem x) ∙ ap₂ event_read names payloads ∙ event_read_lem y in
      cc

  -- The type tells an event from a response.
  event_not_response : (x : Event W) (r : Response W) → event_to_json x ≡ response_to_json r → ⊥
  unfolding response_to_json
  event_not_response x (success action p) e =
      let same = sym (event_to_json_lem x) ∙ e ∙ build_success_lem action p in
      let type_member : ◌≡◌ {A = String} "event" "response" = cc in
      absurd (ground (arith, eq_iff "event" "response"))
  event_not_response x (failure action message) e =
      let same = sym (event_to_json_lem x) ∙ e in
      let type_member : ◌≡◌ {A = String} "event" "response" = cc in
      absurd (ground (arith, eq_iff "event" "response"))

  -- A client can tell from the JSON of a message whether it is an event or a response, which one, and
  -- all that it says, to the last bid of an item: two messages with the same JSON are the same.
  pub message_to_json_injective : (x y : Message W) → message_to_json x ≡ message_to_json y → x ≡ y
  unfolding message_to_json
  message_to_json_injective (announcement x) (announcement y) e =
      ap announcement (event_to_json_injective x y e)
  message_to_json_injective (announcement x) (reply r) e = absurd (event_not_response x r e)
  message_to_json_injective (reply r) (announcement x) e = absurd (event_not_response x r (sym e))
  message_to_json_injective (reply r) (reply s) e = ap reply (response_to_json_injective r s e)
