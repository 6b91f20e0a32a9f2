-- ===== src/Auction/Session/Lossless.antt =====
-- Two responses with the same JSON are the same.
use architecture_course.Prelude.{
  true, ℕ, String, string_eq, Option, none, some, List, [], ◌∷◌, ◌≡◌, refl, sym, ap, ◌∙◌, arith,
  ◌==◌, if◌then◌else◌,
}
use mathlib.Core.Path.{ap₂}
use architecture_course.Prelude.Json.{
  Json, text, boolean, object, braced, pushed_injective, braced_injective,
}
use architecture_course.Auction.Types.{
  ItemStatus, draft, active, sold, closed_no_bids, User, Bid, Item, EndAuction,
}
use architecture_course.Auction.Session.{
  Payload, user_payload, item_payload, ended_payload, state_payload, Response, success, failure,
}
use architecture_course.Auction.Session.Encoding.{
  id_or_null, status_to_string, user_to_json, bid_to_json, auto_bid_to_json, item_to_json,
  ended_members, build_success, payload_members, response_to_json,
}

abbrev status_read : String → ItemStatus
status_read s =
    if s == "draft"
    then draft
    else if s == "active"
    then active
    else if s == "sold"
    then sold
    else closed_no_bids

status_read_lem : (status : ItemStatus) → status_read (status_to_string status) ≡ status
unfolding status_to_string
status_read_lem draft = refl
status_read_lem active = refl
status_read_lem sold = refl
status_read_lem closed_no_bids = refl

status_to_string_injective : (a b : ItemStatus) → status_to_string a ≡ status_to_string b → a ≡ b
status_to_string_injective a b e = sym (status_read_lem a) ∙ ap status_read e ∙ status_read_lem b

module _ {ℓ} {W : Type ℓ} where
  id_or_null_injective : (a b : Option ℕ) → id_or_null {W = W} a ≡ id_or_null b → a ≡ b
  id_or_null_injective none none e = refl
  id_or_null_injective none (some b) e = cc
  id_or_null_injective (some a) none e = cc
  id_or_null_injective (some a) (some b) e = cc

  user_to_json_injective : (u v : User W) → user_to_json u ≡ user_to_json v → u ≡ v
  unfolding user_to_json
  user_to_json_injective u v e = cc

  bid_to_json_injective : (a b : Bid W) → bid_to_json a ≡ bid_to_json b → a ≡ b
  bid_to_json_injective a b e = cc

  auto_bid_to_json_injective : (a b : ℕ × W) → auto_bid_to_json a ≡ auto_bid_to_json b → a ≡ b
  auto_bid_to_json_injective a b e = cc

  item_to_json_injective : (a b : Item W) → item_to_json a ≡ item_to_json b → a ≡ b
  unfolding item_to_json
  item_to_json_injective a b e =
      let status : a.status ≡ b.status = status_to_string_injective a.status b.status cc in
      let bidder : a.highest_bidder_id ≡ b.highest_bidder_id = id_or_null_injective _ _ cc in
      let limits : a.auto_bid_limits ≡ b.auto_bid_limits =
        pushed_injective auto_bid_to_json auto_bid_to_json_injective _ _ cc in
      let history : a.bid_history ≡ b.bid_history =
        pushed_injective bid_to_json bid_to_json_injective _ _ cc in
      cc

  ended_members_injective : (a b : EndAuction W) → ended_members a ≡ ended_members b → a ≡ b
  ended_members_injective a b e =
      let item : a.item ≡ b.item = item_to_json_injective a.item b.item cc in
      let winner : a.winner_id ≡ b.winner_id = id_or_null_injective _ _ cc in cc

  -- The kind of a payload, from its keys.
  abbrev kind_read : List (String × Json W) → ℕ
  kind_read [] = 0
  kind_read ((key, value) ∷ []) = if key == "user" then 1 else 3
  kind_read ((key, value) ∷ second ∷ rest) = if key == "users" then 2 else 4

  pub payload_members_injective : (p q : Payload W) → payload_members p ≡ payload_members q → p ≡ q
  payload_members_injective (user_payload u) (user_payload v) e =
      ap user_payload (user_to_json_injective u v cc)
  payload_members_injective (user_payload u) (item_payload v) e =
      let clash : 1 ≡ 3 = ap kind_read e in absurd (omega (arith, clash))
  payload_members_injective (user_payload u) (ended_payload v) e =
      let clash : 1 ≡ 4 = ap kind_read e in absurd (omega (arith, clash))
  payload_members_injective (user_payload u) (state_payload vs js) e =
      let clash : 1 ≡ 2 = ap kind_read e in absurd (omega (arith, clash))
  payload_members_injective (item_payload u) (user_payload v) e =
      let clash : 3 ≡ 1 = ap kind_read e in absurd (omega (arith, clash))
  payload_members_injective (item_payload u) (item_payload v) e =
      ap item_payload (item_to_json_injective u v cc)
  payload_members_injective (item_payload u) (ended_payload v) e =
      let clash : 3 ≡ 4 = ap kind_read e in absurd (omega (arith, clash))
  payload_members_injective (item_payload u) (state_payload vs js) e =
      let clash : 3 ≡ 2 = ap kind_read e in absurd (omega (arith, clash))
  payload_members_injective (ended_payload u) (user_payload v) e =
      let clash : 4 ≡ 1 = ap kind_read e in absurd (omega (arith, clash))
  payload_members_injective (ended_payload u) (item_payload v) e =
      let clash : 4 ≡ 3 = ap kind_read e in absurd (omega (arith, clash))
  payload_members_injective (ended_payload u) (ended_payload v) e =
      ap ended_payload (ended_members_injective u v e)
  payload_members_injective (ended_payload u) (state_payload vs js) e =
      let clash : 4 ≡ 2 = ap kind_read e in absurd (omega (arith, clash))
  payload_members_injective (state_payload us is) (user_payload v) e =
      let clash : 2 ≡ 1 = ap kind_read e in absurd (omega (arith, clash))
  payload_members_injective (state_payload us is) (item_payload v) e =
      let clash : 2 ≡ 3 = ap kind_read e in absurd (omega (arith, clash))
  payload_members_injective (state_payload us is) (ended_payload v) e =
      let clash : 2 ≡ 4 = ap kind_read e in absurd (omega (arith, clash))
  payload_members_injective (state_payload us is) (state_payload vs js) e =
      ap₂ state_payload (pushed_injective user_to_json user_to_json_injective us vs cc)
        (pushed_injective item_to_json item_to_json_injective is js cc)

  -- The members of a payload come after those of the response, and take the place of none.
  pub build_success_lem :
      (action : String) (p : Payload W)
      → build_success action p
        ≡ object (
            braced (
              ("type", text "response")
              ∷ ("action", text action)
              ∷ ("ok", boolean true)
              ∷ payload_members p))
  unfolding build_success
  build_success_lem action (user_payload u) = refl
  build_success_lem action (item_payload u) = refl
  build_success_lem action (ended_payload u) = refl
  build_success_lem action (state_payload us is) = refl

  success_injective :
      (action other : String) (p q : Payload W)
      → build_success action p ≡ build_success other q
      → success action p ≡ success other q
  success_injective action other p q e =
      let same = sym (build_success_lem action p) ∙ e ∙ build_success_lem other q in
      let members : braced (payload_members p) ≡ braced (payload_members q) = cc in
      let names : action ≡ other = cc in
      let payloads : p ≡ q = payload_members_injective p q (braced_injective _ _ members) in cc

  success_not_failure :
      (action other message : String) (p : Payload W)
      → response_to_json (success action p) ≡ response_to_json (failure other message)
      → ⊥
  unfolding response_to_json
  success_not_failure action other message p e =
      let same = sym (build_success_lem action p) ∙ e in cc

  pub response_to_json_injective :
      (r s : Response W) → response_to_json r ≡ response_to_json s → r ≡ s
  unfolding response_to_json
  response_to_json_injective (success action p) (success other q) e =
      success_injective action other p q e
  response_to_json_injective (success action p) (failure other message) e =
      absurd (success_not_failure action other message p e)
  response_to_json_injective (failure other message) (success action p) e =
      absurd (success_not_failure action other message p (sym e))
  response_to_json_injective (failure action message) (failure other m) e = cc
