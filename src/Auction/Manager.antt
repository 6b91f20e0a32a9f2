-- ===== src/Auction/Manager.antt =====
-- The public operations of `AuctionManager`, each with its guards in the source's order. An operation
-- returns its result and the manager; a failure is the source's message.
use architecture_course.Prelude.{
  nat_eq, ℕ, suc, String, Option, none, some, List, [], ◌∷◌, Bool, not, ltb, is_empty,
  if◌then◌else◌, Result, ok, err,
}
use architecture_course.Prelude.Map.{lookup, insert, values}
use architecture_course.Prelude.Double.{Double}
use architecture_course.Auction.Types.{
  ItemStatus, draft, active, sold, closed_no_bids, User, Item, AuctionManager, EndAuction, Clock,
  record_bid,
}
use architecture_course.Auction.AutoBid.{apply_auto_bids}

abbrev pub is_draft : ItemStatus → Bool
is_draft draft = Bool.true
is_draft _ = Bool.false

abbrev pub is_active : ItemStatus → Bool
is_active active = Bool.true
is_active _ = Bool.false

module _ {ℓ} {W : Type ℓ} ⦃d : Double W⦄ where
  -- A write through the reference into `items_`.
  abbrev pub put_item : ℕ → Item W → AuctionManager W → AuctionManager W
  put_item item_id item m = record m { items = insert item_id item m.items }

  unfoldable pub create_user : AuctionManager W → String → W → Result (User W) × AuctionManager W
  create_user m name initial_balance =
      if is_empty name
      then (err "name must be non-empty", m)
      else if d.lt initial_balance d.nought
      then (err "initial balance must be >= 0", m)
      else (
        ok user,
        record m { users = insert m.next_user_id user m.users; next_user_id = suc m.next_user_id },
      )
    where
      user : User W
      user = record { id = m.next_user_id; name = name; balance = initial_balance }

  unfoldable pub update_balance : AuctionManager W → ℕ → W → Result (User W) × AuctionManager W
  update_balance m user_id delta = elim (lookup user_id m.users) [
    | none ↦ (err "user not found", m)
    | some user ↦
        let updated = d.add user.balance delta in
        if d.lt updated d.nought then (err "insufficient balance for update", m) else (
          ok (record user { balance = updated }),
          record m { users = insert user_id (record user { balance = updated }) m.users },
        )
  ]

  unfoldable pub add_item : AuctionManager W → String → W → Result (Item W) × AuctionManager W
  add_item m name starting_bid =
      if is_empty name
      then (err "name must be non-empty", m)
      else if d.le starting_bid d.nought
      then (err "starting bid must be > 0", m)
      else (
        ok item,
        record m { items = insert m.next_item_id item m.items; next_item_id = suc m.next_item_id },
      )
    where
      item : Item W
      item = record {
        id = m.next_item_id;
        name = name;
        starting_bid = starting_bid;
        current_bid = starting_bid;
        status = draft;
        highest_bidder_id = none;
        bid_history = [];
        auto_bid_limits = [];
      }

  unfoldable pub start_auction : AuctionManager W → ℕ → Result (Item W) × AuctionManager W
  start_auction m item_id = elim (lookup item_id m.items) [
    | none ↦ (err "item not found", m)
    | some item ↦
        if is_draft item.status
        then (
          ok (record item { status = active }),
          put_item item_id (record item { status = active }) m,
        )
        else (err "auction can be started only from draft", m)
  ]

  -- The part of `EndAuction` with a highest bidder.
  unfoldable pub settle :
      AuctionManager W → ℕ → Item W → ℕ → Result (EndAuction W) × AuctionManager W
  settle m item_id item winner_id = elim (lookup winner_id m.users) [
    | none ↦ (err "winner user does not exist (internal state error)", m)
    | some user ↦
        if d.lt user.balance item.current_bid
        then (err "winner has insufficient balance at auction end", m)
        else let paid = record user { balance = d.sub user.balance item.current_bid } in
          let closed = record item { status = sold } in
          (
            ok (record {
              item = closed;
              winner_id = some winner_id;
              final_price = item.current_bid;
            }),
            record m {
              users = insert winner_id paid m.users;
              items = insert item_id closed m.items;
            },
          )
  ]

  unfoldable pub end_auction : AuctionManager W → ℕ → Result (EndAuction W) × AuctionManager W
  end_auction m item_id = elim (lookup item_id m.items) [
    | none ↦ (err "item not found", m)
    | some item ↦
        if is_active item.status
        then elim item.highest_bidder_id [
          | none ↦
              let closed = record item { status = closed_no_bids } in
              (
                ok (record { item = closed; winner_id = none; final_price = item.current_bid }),
                put_item item_id closed m,
              )
          | some winner_id ↦ settle m item_id item winner_id
        ]
        else (err "auction is not active", m)
  ]

  -- The end of `PlaceBid` and of `SetAutoBid`: the loop, and the item written back. `none` means that
  -- the loop did not end within the fuel.
  unfoldable pub finish :
      ℕ → Clock → AuctionManager W → ℕ → Item W → Option (Result (Item W) × AuctionManager W)
  finish fuel clock m item_id item = elim (apply_auto_bids clock m.users m.min_bid_step fuel item) [
    | none ↦ none
    | some next ↦ some (ok next, put_item item_id next m)
  ]

  unfoldable pub place_bid :
      ℕ → Clock → AuctionManager W → ℕ → ℕ → W → Option (Result (Item W) × AuctionManager W)
  place_bid fuel clock m item_id user_id amount = elim (lookup item_id m.items) [
    | none ↦ some (err "item not found", m)
    | some item ↦ elim (lookup user_id m.users) [
      | none ↦ some (err "user not found", m)
      | some user ↦
          if not (is_active item.status)
          then some (err "auction is not active", m)
          else if not (d.lt item.current_bid amount)
          then some (err "bid must be greater than current bid", m)
          else if d.lt user.balance amount
          then some (err "insufficient balance", m)
          else finish fuel clock m item_id (record_bid clock user_id amount item)
    ]
  ]

  unfoldable pub set_auto_bid :
      ℕ → Clock → AuctionManager W → ℕ → ℕ → W → Option (Result (Item W) × AuctionManager W)
  set_auto_bid fuel clock m item_id user_id max_amount = elim (lookup item_id m.items) [
    | none ↦ some (err "item not found", m)
    | some item ↦ elim (lookup user_id m.users) [
      | none ↦ some (err "user not found", m)
      | some user ↦
          if not (is_active item.status)
          then some (err "auction is not active", m)
          else if d.le max_amount item.current_bid
          then some (err "auto bid max must be greater than current bid", m)
          else if d.lt user.balance max_amount
          then some (err "insufficient balance for auto bid max", m)
          else finish fuel clock m item_id
              (record item { auto_bid_limits = insert user_id max_amount item.auto_bid_limits })
    ]
  ]

-- `std::sort` by id, in `GetUsers` and `GetItems`
module _ {ℓ} {A : Type ℓ} (id : A → ℕ) where
  unfoldable pub insert_by_id : A → List A → List A
  insert_by_id a [] = a ∷ []
  insert_by_id a (b ∷ bs) = if ltb (id b) (id a) then b ∷ insert_by_id a bs else a ∷ b ∷ bs

  unfoldable pub sort_by_id : List A → List A
  unfolding insert_by_id
  sort_by_id [] = []
  sort_by_id (a ∷ rest) = insert_by_id a (sort_by_id rest)

module _ {ℓ} {W : Type ℓ} where
  unfoldable pub get_users : AuctionManager W → List (User W)
  unfolding sort_by_id values
  get_users m = sort_by_id (λ (u : User W). u.id) (values m.users)

  unfoldable pub get_items : AuctionManager W → List (Item W)
  unfolding sort_by_id values
  get_items m = sort_by_id (λ (i : Item W). i.id) (values m.items)
