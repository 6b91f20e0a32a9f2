-- ===== src/Auction/History.antt =====
-- The bid history of an item against its price and its highest bidder, under the two ways in which a
-- bid is recorded.
use mathlib.Core.Option.{some-injective}
use architecture_course.Prelude.{
  length, is_some, subst, nat_eq, ℕ, Option, none, some, List, [], ◌∷◌, ◌++◌, true, ◌≡◌, refl, sym,
  All, All-append,
}
use architecture_course.Prelude.Map.{Map, contains}
use architecture_course.Prelude.Map.Laws.{Each}
use architecture_course.Prelude.Double.{Double, IsIeee, ◌≼◌}
use architecture_course.Auction.Types.{
  ItemStatus, draft, active, sold, closed_no_bids, User, Bid, Item, Clock, record_bid,
}
use architecture_course.Auction.AutoBid.{apply_auto_bids}
use architecture_course.Auction.Loop.{Outbids, rounds_keeps}

module _ {ℓ} {W : Type ℓ} where
  -- The price and the highest bidder that a history leads to.
  unfoldable pub price_after : W → List (Bid W) → W
  price_after price [] = price
  price_after price (b ∷ bs) = price_after b.amount bs

  unfoldable pub leader_after : Option ℕ → List (Bid W) → Option ℕ
  leader_after leader [] = leader
  leader_after leader (b ∷ bs) = leader_after (some b.user_id) bs

  pub price_after-append :
      (p : W) (bs : List (Bid W)) (b : Bid W) → price_after p (bs ++ (b ∷ [])) ≡ b.amount
  unfolding price_after
  price_after-append p [] b = refl
  price_after-append p (c ∷ bs) b = price_after-append c.amount bs b

  pub leader_after-append :
      (o : Option ℕ) (bs : List (Bid W)) (b : Bid W)
      → leader_after o (bs ++ (b ∷ [])) ≡ some b.user_id
  unfolding leader_after
  leader_after-append o [] b = refl
  leader_after-append o (c ∷ bs) b = leader_after-append (some c.user_id) bs b

  -- The highest bidder of a history placed one of its bids.
  pub leader_after-All :
      (P : ℕ → Type 0) (o : Option ℕ) (bs : List (Bid W)) (w : ℕ)
      → (o ≡ some w → P w)
      → All (λ (b : Bid W). P b.user_id) bs
      → leader_after o bs ≡ some w
      → P w
  unfolding leader_after
  leader_after-All P o [] w base a e = base e
  leader_after-All P o (b ∷ bs) w base a e =
      leader_after-All P (some b.user_id) bs w (λ q. subst P (some-injective _ _ q) a.0) a.1 e

module _ {ℓ} {W : Type ℓ} ⦃d : Double W⦄ where
  -- No bid is below the price that it found.
  abbrev pub Rising : W → List (Bid W) → Type 0
  Rising price [] = Unit
  Rising price (b ∷ bs) = (price ≼ b.amount) × Rising b.amount bs

  Rising-append :
      (p : W) (bs : List (Bid W)) (b : Bid W)
      → Rising p bs
      → price_after p bs ≼ b.amount
      → Rising p (bs ++ (b ∷ []))
  unfolding price_after
  Rising-append p [] b r h = (h, tt)
  Rising-append p (c ∷ bs) b r h = (r.0, Rising-append c.amount bs b r.1 h)

  -- What each status says of the history.
  abbrev pub Fits : ItemStatus → Item W → Type 0
  Fits draft i = (length i.bid_history ≡ 0) × (length i.auto_bid_limits ≡ 0)
  Fits active i = Unit
  Fits sold i = is_some i.highest_bidder_id ≡ true
  Fits closed_no_bids i = length i.bid_history ≡ 0

  -- The current bid and the highest bidder are those of the history, and prices never fall.
  pub record IsCoherent (i : Item W) : Type ℓ where
    pub price : i.current_bid ≡ price_after i.starting_bid i.bid_history
    pub leader : i.highest_bidder_id ≡ leader_after none i.bid_history
    pub rising : Rising i.starting_bid i.bid_history
    pub fits : Fits i.status i

  -- Every bidder and every user with a limit has an account.
  pub record IsKnown (users : Map ℕ (User W)) (i : Item W) : Type ℓ where
    pub bidders : All (λ (b : Bid W). contains b.user_id users ≡ true) i.bid_history
    pub limits : Each (λ k _. contains k users ≡ true) i.auto_bid_limits

  pub record_bid-IsCoherent :
      (clock : Clock) (u : ℕ) (amount : W) (i : Item W)
      → i.status ≡ active
      → i.current_bid ≼ amount
      → IsCoherent i
      → IsCoherent (record_bid clock u amount i)
  unfolding record_bid
  record_bid-IsCoherent clock u amount i s h c = record {
    price = sym (price_after-append i.starting_bid i.bid_history _);
    leader = sym (leader_after-append none i.bid_history _);
    rising = Rising-append i.starting_bid i.bid_history _ c.rising (rw (← c.price) h);
    fits = rw s tt;
  }

  pub record_bid-IsKnown :
      (clock : Clock) (users : Map ℕ (User W)) (u : ℕ) (amount : W) (i : Item W)
      → contains u users ≡ true
      → IsKnown users i
      → IsKnown users (record_bid clock u amount i)
  unfolding record_bid
  record_bid-IsKnown clock users u amount i a k = record {
    bidders = All-append _ i.bid_history _ k.bidders (a, tt);
    limits = k.limits;
  }

module _ {ℓ} {W : Type ℓ} ⦃d : Double W⦄ (laws : IsIeee W) (clock : Clock) (users : Map ℕ (User W))
    (key : ℕ) where
  -- The facts that hold through the loop, from an active item.
  pub record IsRunning (i : Item W) : Type ℓ where
    pub id : i.id ≡ key
    pub status : i.status ≡ active
    pub coherent : IsCoherent i
    pub known : IsKnown users i

  Outbids-IsRunning :
      (u : ℕ) (i next : Item W) → Outbids clock users d.unit u i next → IsRunning i → IsRunning next
  Outbids-IsRunning u i next o r =
      let above = laws.le_add_unit i.current_bid _ o.affordable in
      rw o.bid (record {
        id = unfold record_bid in r.id;
        status = unfold record_bid in r.status;
        coherent = record_bid-IsCoherent clock u _ i r.status above r.coherent;
        known = record_bid-IsKnown clock users u _ i (rw o.account) r.known;
      })

  pub apply_auto_bids-IsRunning :
      (fuel : ℕ) (i next : Item W)
      → apply_auto_bids clock users d.unit fuel i ≡ some next
      → IsRunning i
      → IsRunning next
  unfolding apply_auto_bids
  apply_auto_bids-IsRunning fuel i next e r =
      (rounds_keeps clock users d.unit IsRunning Outbids-IsRunning fuel _ i next e r).0
