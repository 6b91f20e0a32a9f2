-- ===== src/Auction/Session/Outcomes.antt =====
-- A request either fails and leaves no trace, or is answered and announced by at most one event.
use mathlib.Core.Option.{some-injective}
use architecture_course.Prelude.{
  subst, if◌then◌else◌, length, ◌≤◌, nat_eq, ℕ, String, Option, none, some, [], Bool, true, false,
  ◌≡◌, refl, Result, ok, err, arith, Option-cases, inl, inr,
}
use architecture_course.Prelude.Double.{Double}
use architecture_course.Auction.Types.{Item, AuctionManager, Clock}
use architecture_course.Auction.Manager.{
  create_user, update_balance, add_item, start_auction, settle, end_auction, finish, place_bid,
  set_auto_bid,
}
use architecture_course.Auction.Session.{
  Requests, Event, Payload, Response, success, failure, Outcome, build_error, conclude,
  conclude_bid, handle_action, handle_request, on_create_user, on_update_balance, on_add_item,
  on_start_auction, on_end_auction, on_place_bid, on_set_auto_bid, on_get_state,
}

module _ {ℓ} {W : Type ℓ} (m : AuctionManager W) where
  -- A failed call of the manager returns it as it was.
  abbrev Keeps {κ} : {A : Type κ} → Result A × AuctionManager W → Type ℓ
  Keeps (ok a, after) = Unit
  Keeps (err e, after) = after ≡ m

  abbrev Keeps? : Option (Result (Item W) × AuctionManager W) → Type ℓ
  Keeps? none = Unit
  Keeps? (some r) = Keeps r

  pub record IsAnnounced (o : Outcome W) : Type ℓ where
    pub at_most_one : length o.events ≤ 1

  -- No event and the same manager after a failure, at most one event after a success.
  abbrev pub TraceOf : Response W → Outcome W → Type ℓ
  TraceOf (success action payload) o = IsAnnounced o
  TraceOf (failure action message) o = (o.events ≡ []) × (o.manager ≡ m)

  abbrev pub IsAtomic : Outcome W → Type ℓ
  IsAtomic o = TraceOf o.response o

  conclude-IsAtomic {κ} :
      {A : Type κ} (action : String) (event : A → Event W) (payload : A → Payload W)
      (r : Result A × AuctionManager W)
      → Keeps r
      → IsAtomic (conclude action event payload r)
  unfolding conclude
  conclude-IsAtomic action event payload (ok a, after) k = record { at_most_one = omega arith }
  conclude-IsAtomic action event payload (err e, after) k = (refl, k)

module _ {ℓ} {W : Type ℓ} ⦃d : Double W⦄ (m : AuctionManager W) where
  create_user-Keeps : (name : String) (b : W) → Keeps m (create_user m name b)
  unfolding create_user
  create_user-Keeps name b = ground arith

  update_balance-Keeps : (u : ℕ) (delta : W) → Keeps m (update_balance m u delta)
  unfolding update_balance
  update_balance-Keeps u delta = ground arith

  add_item-Keeps : (name : String) (b : W) → Keeps m (add_item m name b)
  unfolding add_item
  add_item-Keeps name b = ground arith

  start_auction-Keeps : (k : ℕ) → Keeps m (start_auction m k)
  unfolding start_auction
  start_auction-Keeps k = ground arith

  end_auction-Keeps : (k : ℕ) → Keeps m (end_auction m k)
  unfolding end_auction settle
  end_auction-Keeps k = ground arith

  place_bid-Keeps :
      (fuel : ℕ) (clock : Clock) (k u : ℕ) (b : W) → Keeps? m (place_bid fuel clock m k u b)
  unfolding place_bid finish
  place_bid-Keeps fuel clock k u b = ground arith

  set_auto_bid-Keeps :
      (fuel : ℕ) (clock : Clock) (k u : ℕ) (b : W) → Keeps? m (set_auto_bid fuel clock m k u b)
  unfolding set_auto_bid finish
  set_auto_bid-Keeps fuel clock k u b = ground arith

  -- The same of an answer, if there is one.
  pub record IsTraced (answer : Option (Outcome W)) : Type ℓ where
    pub at : (o : Outcome W) → answer ≡ some o → IsAtomic m o

  some-IsTraced : (o : Outcome W) → IsAtomic m o → IsTraced (some o)
  some-IsTraced o a = record { at = λ p e. subst (IsAtomic m) (some-injective _ _ e) a }

  refused-IsTraced : (action message : String) → IsTraced (some (build_error m action message))
  refused-IsTraced action message = some-IsTraced _ (refl, refl)

  conclude_bid-IsTraced :
      (action : String) (event : Item W → Event W) (r : Option (Result (Item W) × AuctionManager W))
      → Keeps? m r
      → IsTraced (conclude_bid action event r)
  conclude_bid-IsTraced action event none k = record { at = λ o e. cc }
  conclude_bid-IsTraced action event (some r) k =
      some-IsTraced _ (conclude-IsAtomic m action event Payload.item_payload r k)

  if-IsTraced :
      (b : Bool) (x y : Option (Outcome W))
      → IsTraced x
      → IsTraced y
      → IsTraced (if b then x else y)
  if-IsTraced true x y p q = p
  if-IsTraced false x y p q = q

module _ {ℓ κ} {J : Type κ} {W : Type ℓ} ⦃d : Double W⦄ (json : Requests J W) (fuel : ℕ)
    (clock : Clock) (m : AuctionManager W) (request : J) where
  open json use {is_object, string_field, integer_field, number_field}

  on_create_user-IsAtomic :
      (action : String) → IsAtomic m (on_create_user json fuel clock m request action)
  unfolding on_create_user
  on_create_user-IsAtomic action = elim (Option-cases (string_field "name" request)) [
    | inl e ↦ rw (e, on_create_user) (refl, refl)
    | inr (name, e) ↦
        rw (e, on_create_user) (conclude-IsAtomic m action _ _ _ (create_user-Keeps m name _))
  ]

  on_update_balance-IsAtomic :
      (action : String) → IsAtomic m (on_update_balance json fuel clock m request action)
  unfolding on_update_balance
  on_update_balance-IsAtomic action = elim (Option-cases (integer_field "userId" request)) [
    | inl e ↦ rw (e, on_update_balance) (refl, refl)
    | inr (u, e) ↦ elim (Option-cases (number_field "delta" request)) [
      | inl f ↦ rw (e, f, on_update_balance) (refl, refl)
      | inr (delta, f) ↦
          rw (e, f, on_update_balance)
            (conclude-IsAtomic m action _ _ _ (update_balance-Keeps m u delta))
    ]
  ]

  on_add_item-IsAtomic :
      (action : String) → IsAtomic m (on_add_item json fuel clock m request action)
  unfolding on_add_item
  on_add_item-IsAtomic action = elim (Option-cases (string_field "name" request)) [
    | inl e ↦ rw (e, on_add_item) (refl, refl)
    | inr (name, e) ↦ elim (Option-cases (number_field "startingBid" request)) [
      | inl f ↦ rw (e, f, on_add_item) (refl, refl)
      | inr (bid, f) ↦
          rw (e, f, on_add_item) (conclude-IsAtomic m action _ _ _ (add_item-Keeps m name bid))
    ]
  ]

  on_start_auction-IsAtomic :
      (action : String) → IsAtomic m (on_start_auction json fuel clock m request action)
  unfolding on_start_auction
  on_start_auction-IsAtomic action = elim (Option-cases (integer_field "itemId" request)) [
    | inl e ↦ rw (e, on_start_auction) (refl, refl)
    | inr (k, e) ↦
        rw (e, on_start_auction) (conclude-IsAtomic m action _ _ _ (start_auction-Keeps m k))
  ]

  on_end_auction-IsAtomic :
      (action : String) → IsAtomic m (on_end_auction json fuel clock m request action)
  unfolding on_end_auction
  on_end_auction-IsAtomic action = elim (Option-cases (integer_field "itemId" request)) [
    | inl e ↦ rw (e, on_end_auction) (refl, refl)
    | inr (k, e) ↦ rw (e, on_end_auction) (conclude-IsAtomic m action _ _ _ (end_auction-Keeps m k))
  ]

  on_place_bid-IsTraced :
      (action : String) → IsTraced m (on_place_bid json fuel clock m request action)
  unfolding on_place_bid
  on_place_bid-IsTraced action = elim (Option-cases (integer_field "itemId" request)) [
    | inl e ↦ rw (e, on_place_bid) (refused-IsTraced m _ _)
    | inr (k, e) ↦ elim (Option-cases (integer_field "userId" request)) [
      | inl f ↦ rw (e, f, on_place_bid) (refused-IsTraced m _ _)
      | inr (u, f) ↦ elim (Option-cases (number_field "amount" request)) [
        | inl g ↦ rw (e, f, g, on_place_bid) (refused-IsTraced m _ _)
        | inr (amount, g) ↦
            rw (e, f, g, on_place_bid)
              (conclude_bid-IsTraced m action _ _ (place_bid-Keeps m fuel clock k u amount))
      ]
    ]
  ]

  on_set_auto_bid-IsTraced :
      (action : String) → IsTraced m (on_set_auto_bid json fuel clock m request action)
  unfolding on_set_auto_bid
  on_set_auto_bid-IsTraced action = elim (Option-cases (integer_field "itemId" request)) [
    | inl e ↦ rw (e, on_set_auto_bid) (refused-IsTraced m _ _)
    | inr (k, e) ↦ elim (Option-cases (integer_field "userId" request)) [
      | inl f ↦ rw (e, f, on_set_auto_bid) (refused-IsTraced m _ _)
      | inr (u, f) ↦ elim (Option-cases (number_field "maxAmount" request)) [
        | inl g ↦ rw (e, f, g, on_set_auto_bid) (refused-IsTraced m _ _)
        | inr (limit, g) ↦
            rw (e, f, g, on_set_auto_bid)
              (conclude_bid-IsTraced m action _ _ (set_auto_bid-Keeps m fuel clock k u limit))
      ]
    ]
  ]

  on_get_state-IsAtomic :
      (action : String) → IsAtomic m (on_get_state json fuel clock m request action)
  unfolding on_get_state
  on_get_state-IsAtomic action = record { at_most_one = omega arith }

  handle_action-IsTraced :
      (action : String) → IsTraced m (handle_action json fuel clock m request action)
  unfolding handle_action
  handle_action-IsTraced action =
      let done = λ (o : Outcome W) (a : IsAtomic m o). some-IsTraced m o a in
      if-IsTraced m _ _ _ (done _ (on_create_user-IsAtomic action)) (
        if-IsTraced m _ _ _ (done _ (on_update_balance-IsAtomic action)) (
          if-IsTraced m _ _ _ (done _ (on_add_item-IsAtomic action)) (
            if-IsTraced m _ _ _ (done _ (on_start_auction-IsAtomic action)) (
              if-IsTraced m _ _ _ (done _ (on_end_auction-IsAtomic action)) (
                if-IsTraced m _ _ _ (on_place_bid-IsTraced action) (
                  if-IsTraced m _ _ _ (on_set_auto_bid-IsTraced action) (
                    if-IsTraced m _ _ _ (done _ (on_get_state-IsAtomic action))
                      (refused-IsTraced m _ _))))))))

  -- A request that is answered by an error has broadcast nothing and left the manager as it was; one
  -- that is answered by success has broadcast at most one event.
  pub handle_request-IsTraced : IsTraced m (handle_request json fuel clock m request)
  unfolding handle_request
  handle_request-IsTraced = elim (Option-cases (string_field "action" request)) [
    | inl e ↦
        rw (e, handle_request)
          (if-IsTraced m _ _ _ (refused-IsTraced m _ _) (refused-IsTraced m _ _))
    | inr (action, e) ↦
        rw (e, handle_request)
          (if-IsTraced m _ _ _ (refused-IsTraced m _ _) (handle_action-IsTraced action))
  ]
