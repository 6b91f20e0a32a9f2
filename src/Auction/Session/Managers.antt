-- ===== src/Auction/Session/Managers.antt =====
-- A request leads the manager only through the operations of `AuctionManager`.
use mathlib.Core.Option.{some-injective}
use architecture_course.Prelude.{
  subst, if◌then◌else◌, nat_eq, ℕ, String, Option, none, some, Bool, true, false, ◌≡◌, refl, Result,
  ok, err, Option-cases, inl, inr,
}
use architecture_course.Prelude.Double.{Double}
use architecture_course.Auction.Types.{Item, AuctionManager, Clock}
use architecture_course.Auction.Reachable.{Reachable}
use architecture_course.Auction.Session.{
  Requests, Event, Payload, Outcome, build_error, conclude, conclude_bid, handle_action,
  handle_request, on_create_user, on_update_balance, on_add_item, on_start_auction, on_end_auction,
  on_place_bid, on_set_auto_bid, on_get_state,
}

module _ {ℓ} {W : Type ℓ} ⦃d : Double W⦄ where
  conclude-Reachable {κ} :
      {A : Type κ} (action : String) (event : A → Event W) (payload : A → Payload W)
      (r : Result A × AuctionManager W)
      → Reachable r.1
      → Reachable (conclude action event payload r).manager
  unfolding conclude
  conclude-Reachable action event payload (ok a, m) h = h
  conclude-Reachable action event payload (err e, m) h = h

  -- Where there is an answer, its manager is reachable.
  pub record IsLed (answer : Option (Outcome W)) : Type ℓ where
    pub at : (o : Outcome W) → answer ≡ some o → Reachable o.manager

  some-IsLed : (o : Outcome W) → Reachable o.manager → IsLed (some o)
  some-IsLed o h = record {
    at = λ p e. subst (λ (q : Outcome W). Reachable q.manager) (some-injective _ _ e) h;
  }

  conclude_bid-IsLed :
      (action : String) (event : Item W → Event W) (r : Option (Result (Item W) × AuctionManager W))
      → ((answer : Result (Item W)) (next : AuctionManager W)
          → r ≡ some (answer, next)
          → Reachable next)
      → IsLed (conclude_bid action event r)
  conclude_bid-IsLed action event none h = record { at = λ o e. cc }
  conclude_bid-IsLed action event (some (answer, next)) h =
      some-IsLed _
        (conclude-Reachable action event Payload.item_payload (answer, next) (h answer next refl))

  if-IsLed : (b : Bool) (x y : Option (Outcome W)) → IsLed x → IsLed y → IsLed (if b then x else y)
  if-IsLed true x y p q = p
  if-IsLed false x y p q = q

module _ {ℓ κ} {J : Type κ} {W : Type ℓ} ⦃d : Double W⦄ (json : Requests J W) (fuel : ℕ)
    (clock : Clock) (m : AuctionManager W) (request : J) (r : Reachable m) where
  open json use {is_object, string_field, integer_field, number_field}

  refused-IsLed : (action message : String) → IsLed (some (build_error m action message))
  refused-IsLed action message = some-IsLed _ r

  on_create_user-Reachable :
      (action : String) → Reachable (on_create_user json fuel clock m request action).manager
  unfolding on_create_user
  on_create_user-Reachable action = elim (Option-cases (string_field "name" request)) [
    | inl e ↦ rw (e, on_create_user) r
    | inr (name, e) ↦
        rw (e, on_create_user) (conclude-Reachable action _ _ _ (Reachable.creates_user name _ r))
  ]

  on_update_balance-Reachable :
      (action : String) → Reachable (on_update_balance json fuel clock m request action).manager
  unfolding on_update_balance
  on_update_balance-Reachable action = elim (Option-cases (integer_field "userId" request)) [
    | inl e ↦ rw (e, on_update_balance) r
    | inr (u, e) ↦ elim (Option-cases (number_field "delta" request)) [
      | inl f ↦ rw (e, f, on_update_balance) r
      | inr (delta, f) ↦
          rw (e, f, on_update_balance)
            (conclude-Reachable action _ _ _ (Reachable.updates_balance u delta r))
    ]
  ]

  on_add_item-Reachable :
      (action : String) → Reachable (on_add_item json fuel clock m request action).manager
  unfolding on_add_item
  on_add_item-Reachable action = elim (Option-cases (string_field "name" request)) [
    | inl e ↦ rw (e, on_add_item) r
    | inr (name, e) ↦ elim (Option-cases (number_field "startingBid" request)) [
      | inl f ↦ rw (e, f, on_add_item) r
      | inr (bid, f) ↦
          rw (e, f, on_add_item) (conclude-Reachable action _ _ _ (Reachable.adds_item name bid r))
    ]
  ]

  on_start_auction-Reachable :
      (action : String) → Reachable (on_start_auction json fuel clock m request action).manager
  unfolding on_start_auction
  on_start_auction-Reachable action = elim (Option-cases (integer_field "itemId" request)) [
    | inl e ↦ rw (e, on_start_auction) r
    | inr (k, e) ↦
        rw (e, on_start_auction) (conclude-Reachable action _ _ _ (Reachable.starts_auction k r))
  ]

  on_end_auction-Reachable :
      (action : String) → Reachable (on_end_auction json fuel clock m request action).manager
  unfolding on_end_auction
  on_end_auction-Reachable action = elim (Option-cases (integer_field "itemId" request)) [
    | inl e ↦ rw (e, on_end_auction) r
    | inr (k, e) ↦
        rw (e, on_end_auction) (conclude-Reachable action _ _ _ (Reachable.ends_auction k r))
  ]

  on_place_bid-IsLed : (action : String) → IsLed (on_place_bid json fuel clock m request action)
  unfolding on_place_bid
  on_place_bid-IsLed action = elim (Option-cases (integer_field "itemId" request)) [
    | inl e ↦ rw (e, on_place_bid) (refused-IsLed _ _)
    | inr (k, e) ↦ elim (Option-cases (integer_field "userId" request)) [
      | inl f ↦ rw (e, f, on_place_bid) (refused-IsLed _ _)
      | inr (u, f) ↦ elim (Option-cases (number_field "amount" request)) [
        | inl g ↦ rw (e, f, g, on_place_bid) (refused-IsLed _ _)
        | inr (amount, g) ↦
            rw (e, f, g, on_place_bid)
              (conclude_bid-IsLed action _ _
                (λ answer next h. Reachable.places_bid fuel clock k u amount h r))
      ]
    ]
  ]

  on_set_auto_bid-IsLed :
      (action : String) → IsLed (on_set_auto_bid json fuel clock m request action)
  unfolding on_set_auto_bid
  on_set_auto_bid-IsLed action = elim (Option-cases (integer_field "itemId" request)) [
    | inl e ↦ rw (e, on_set_auto_bid) (refused-IsLed _ _)
    | inr (k, e) ↦ elim (Option-cases (integer_field "userId" request)) [
      | inl f ↦ rw (e, f, on_set_auto_bid) (refused-IsLed _ _)
      | inr (u, f) ↦ elim (Option-cases (number_field "maxAmount" request)) [
        | inl g ↦ rw (e, f, g, on_set_auto_bid) (refused-IsLed _ _)
        | inr (limit, g) ↦
            rw (e, f, g, on_set_auto_bid)
              (conclude_bid-IsLed action _ _
                (λ answer next h. Reachable.sets_auto_bid fuel clock k u limit h r))
      ]
    ]
  ]

  on_get_state-Reachable :
      (action : String) → Reachable (on_get_state json fuel clock m request action).manager
  unfolding on_get_state
  on_get_state-Reachable action = r

  handle_action-IsLed : (action : String) → IsLed (handle_action json fuel clock m request action)
  unfolding handle_action
  handle_action-IsLed action =
      if-IsLed _ _ _
        (some-IsLed (on_create_user json fuel clock m request action)
          (on_create_user-Reachable action))
        (if-IsLed _ _ _
          (some-IsLed (on_update_balance json fuel clock m request action)
            (on_update_balance-Reachable action))
          (if-IsLed _ _ _
            (some-IsLed (on_add_item json fuel clock m request action)
              (on_add_item-Reachable action))
            (if-IsLed _ _ _
              (some-IsLed (on_start_auction json fuel clock m request action)
                (on_start_auction-Reachable action))
              (if-IsLed _ _ _
                (some-IsLed (on_end_auction json fuel clock m request action)
                  (on_end_auction-Reachable action))
                (if-IsLed _ _ _ (on_place_bid-IsLed action) (
                  if-IsLed _ _ _ (on_set_auto_bid-IsLed action) (
                    if-IsLed _ _ _
                      (some-IsLed (on_get_state json fuel clock m request action)
                        (on_get_state-Reachable action))
                      (refused-IsLed _ _))))))))

  pub handle_request-IsLed : IsLed (handle_request json fuel clock m request)
  unfolding handle_request
  handle_request-IsLed = elim (Option-cases (string_field "action" request)) [
    | inl e ↦ rw (e, handle_request) (if-IsLed _ _ _ (refused-IsLed _ _) (refused-IsLed _ _))
    | inr (action, e) ↦
        rw (e, handle_request) (if-IsLed _ _ _ (refused-IsLed _ _) (handle_action-IsLed action))
  ]
