-- ===== src/Auction/Reachable.antt =====
-- The invariant over histories of calls, `PlaceBid` and `SetAutoBid` included.
use architecture_course.Prelude.{
  nat_eq, ℕ, String, Option, none, some, true, ◌≡◌, Bool-cases, Option-cases, ◌<◌, inl, inr, Result,
}
use architecture_course.Prelude.Map.{lookup, insert}
use architecture_course.Prelude.Map.Laws.{Each-insert}
use architecture_course.Prelude.Double.{Double, IsIeee, ◌≺◌}
use architecture_course.Auction.Types.{User, Item, AuctionManager, Clock, record_bid, new_manager}
use architecture_course.Auction.AutoBid.{apply_auto_bids}
use architecture_course.Auction.Manager.{
  is_active, create_user, update_balance, add_item, start_auction, end_auction, finish, place_bid,
  set_auto_bid,
}
use architecture_course.Auction.History.{
  record_bid-IsCoherent, record_bid-IsKnown, IsRunning, apply_auto_bids-IsRunning,
}
use architecture_course.Auction.Invariant.{
  IsValid, put_item-IsValid, new_manager-IsValid, create_user-IsValid, update_balance-IsValid,
}
use architecture_course.Auction.Preserve.{
  is_active→active, add_item-IsValid, start_auction-IsValid, end_auction-IsValid,
}

-- What holds of the manager in a returned answer.
abbrev pub Answers {ℓ κ} :
    {W : Type ℓ}
    → (AuctionManager W → Type κ)
    → Option (Result (Item W) × AuctionManager W)
    → Type κ
Answers P none = Unit
Answers P (some r) = P r.1

module _ {ℓ} {W : Type ℓ} ⦃d : Double W⦄ (laws : IsIeee W) (fuel : ℕ) (clock : Clock) where
  finish-IsValid :
      (m : AuctionManager W) (k : ℕ) (i : Item W)
      → k < m.next_item_id
      → IsRunning laws clock m.users k i
      → IsValid m
      → Answers IsValid (finish fuel clock m k i)
  unfolding finish
  finish-IsValid m k i h r v =
      elim (Option-cases (apply_auto_bids clock m.users m.min_bid_step fuel i)) [
        | inl e ↦ rw (e, finish) tt
        | inr (next, e) ↦
            let q = apply_auto_bids-IsRunning laws clock m.users k fuel i next (rw v.step at e) r in
            rw (e, finish)
              (put_item-IsValid m k next
                (record { id = q.id; fresh = h; coherent = q.coherent; known = q.known }) v)
      ]

  -- A bid that passed the checks of `PlaceBid`.
  bid-IsRunning :
      (m : AuctionManager W) (k : ℕ) (i : Item W) (u : ℕ) (user : User W) (amount : W)
      → lookup k m.items ≡ some i
      → lookup u m.users ≡ some user
      → is_active i.status ≡ true
      → i.current_bid ≺ amount
      → IsValid m
      → IsRunning laws clock m.users k (record_bid clock u amount i)
  bid-IsRunning m k i u user amount e a s b v =
      let h = v.items.at k i e in
      let t = is_active→active i.status s in
      record {
        id = unfold record_bid in h.id;
        status = unfold record_bid in t;
        coherent = record_bid-IsCoherent clock u amount i t (laws.le_of_lt _ _ b) h.coherent;
        known = record_bid-IsKnown clock m.users u amount i (rw a) h.known;
      }

  pub place_bid-IsValid :
      (m : AuctionManager W) (k u : ℕ) (amount : W)
      → IsValid m
      → Answers IsValid (place_bid fuel clock m k u amount)
  unfolding place_bid
  place_bid-IsValid m k u amount v = elim (Option-cases (lookup k m.items)) [
    | inl e ↦ rw (e, place_bid) v
    | inr (i, e) ↦ elim (Option-cases (lookup u m.users)) [
      | inl a ↦ rw (e, a, place_bid) v
      | inr (user, a) ↦ elim (Bool-cases (is_active i.status)) [
        | inr s ↦ rw (e, a, place_bid, s) v
        | inl s ↦ elim (Bool-cases (d.lt i.current_bid amount)) [
          | inr b ↦ rw (e, a, place_bid, s, b) v
          | inl b ↦ elim (Bool-cases (d.lt user.balance amount)) [
            | inl c ↦ rw (e, a, place_bid, s, b, c) v
            | inr c ↦
                rw (e, a, place_bid, s, b, c)
                  (finish-IsValid m k _ (v.items.at k i e).fresh
                    (bid-IsRunning m k i u user amount e a s b v) v)
          ]
        ]
      ]
    ]
  ]

  limit-IsRunning :
      (m : AuctionManager W) (k : ℕ) (i : Item W) (u : ℕ) (user : User W) (limit : W)
      → lookup k m.items ≡ some i
      → lookup u m.users ≡ some user
      → is_active i.status ≡ true
      → IsValid m
      → IsRunning laws clock m.users k
          (record i { auto_bid_limits = insert u limit i.auto_bid_limits })
  limit-IsRunning m k i u user limit e a s v =
      let h = v.items.at k i e in
      let t = is_active→active i.status s in
      record {
        id = h.id;
        status = t;
        coherent = record {
          price = h.coherent.price;
          leader = h.coherent.leader;
          rising = h.coherent.rising;
          fits = rw t tt;
        };
        known = record {
          bidders = h.known.bidders;
          limits = Each-insert u limit (rw a) h.known.limits;
        };
      }

  pub set_auto_bid-IsValid :
      (m : AuctionManager W) (k u : ℕ) (limit : W)
      → IsValid m
      → Answers IsValid (set_auto_bid fuel clock m k u limit)
  unfolding set_auto_bid
  set_auto_bid-IsValid m k u limit v = elim (Option-cases (lookup k m.items)) [
    | inl e ↦ rw (e, set_auto_bid) v
    | inr (i, e) ↦ elim (Option-cases (lookup u m.users)) [
      | inl a ↦ rw (e, a, set_auto_bid) v
      | inr (user, a) ↦ elim (Bool-cases (is_active i.status)) [
        | inr s ↦ rw (e, a, set_auto_bid, s) v
        | inl s ↦ elim (Bool-cases (d.le limit i.current_bid)) [
          | inl b ↦ rw (e, a, set_auto_bid, s, b) v
          | inr b ↦ elim (Bool-cases (d.lt user.balance limit)) [
            | inl c ↦ rw (e, a, set_auto_bid, s, b, c) v
            | inr c ↦
                rw (e, a, set_auto_bid, s, b, c)
                  (finish-IsValid m k _ (v.items.at k i e).fresh
                    (limit-IsRunning m k i u user limit e a s v) v)
          ]
        ]
      ]
    ]
  ]

module _ {ℓ} {W : Type ℓ} ⦃d : Double W⦄ where
  -- The managers that a sequence of calls leads to, whichever calls the clients choose; a call whose
  -- loop does not end leads nowhere.
  pub data Reachable : AuctionManager W → Type ℓ where
    initial : Reachable new_manager
    creates_user :
        {m : AuctionManager W} (name : String) (balance : W)
        → Reachable m
        → Reachable (create_user m name balance).1
    updates_balance :
        {m : AuctionManager W} (user_id : ℕ) (delta : W)
        → Reachable m
        → Reachable (update_balance m user_id delta).1
    adds_item :
        {m : AuctionManager W} (name : String) (starting_bid : W)
        → Reachable m
        → Reachable (add_item m name starting_bid).1
    starts_auction :
        {m : AuctionManager W} (item_id : ℕ) → Reachable m → Reachable (start_auction m item_id).1
    ends_auction :
        {m : AuctionManager W} (item_id : ℕ) → Reachable m → Reachable (end_auction m item_id).1
    places_bid :
        {m next : AuctionManager W} {answer : Result (Item W)} (fuel : ℕ) (clock : Clock)
        (item_id user_id : ℕ) (amount : W)
        → place_bid fuel clock m item_id user_id amount ≡ some (answer, next)
        → Reachable m
        → Reachable next
    sets_auto_bid :
        {m next : AuctionManager W} {answer : Result (Item W)} (fuel : ℕ) (clock : Clock)
        (item_id user_id : ℕ) (max_amount : W)
        → set_auto_bid fuel clock m item_id user_id max_amount ≡ some (answer, next)
        → Reachable m
        → Reachable next

  -- In every reachable manager the keys are ids below the counters, no balance is negative, and every
  -- item's price, highest bidder and status agree with its history, in which prices never fall and
  -- every bidder has an account.
  pub Reachable-IsValid : (laws : IsIeee W) {m : AuctionManager W} → Reachable m → IsValid m
  Reachable-IsValid laws initial = new_manager-IsValid
  Reachable-IsValid laws (creates_user name balance r) =
      create_user-IsValid _ name balance (Reachable-IsValid laws r)
  Reachable-IsValid laws (updates_balance k delta r) =
      update_balance-IsValid _ k delta (Reachable-IsValid laws r)
  Reachable-IsValid laws (adds_item name bid r) =
      add_item-IsValid _ name bid (Reachable-IsValid laws r)
  Reachable-IsValid laws (starts_auction k r) = start_auction-IsValid _ k (Reachable-IsValid laws r)
  Reachable-IsValid laws (ends_auction k r) =
      end_auction-IsValid laws _ k (Reachable-IsValid laws r)
  Reachable-IsValid laws (places_bid {m} fuel clock k u amount e r) =
      rw e at (place_bid-IsValid laws fuel clock m k u amount (Reachable-IsValid laws r))
  Reachable-IsValid laws (sets_auto_bid {m} fuel clock k u limit e r) =
      rw e at (set_auto_bid-IsValid laws fuel clock m k u limit (Reachable-IsValid laws r))
