-- ===== src/Auction/Settlement.antt =====
-- What `EndAuction` answers and what it does to the accounts.
use architecture_course.Prelude.Map.Laws.{lookup-insert}
use architecture_course.Prelude.{
  refl, Result, nat_eq, ℕ, String, none, some, true, false, ◌≡◌, ◌≢◌, ◌∙◌, sym, eq_iff, arith,
  Bool-cases, Option-cases, if◌then◌else◌, inl, inr, ok, err, ◌==◌,
}
use mathlib.Core.Path.{subst₂}
use mathlib.Core.Option.{some-injective}
use architecture_course.Prelude.Map.{insert, lookup, contains}
use architecture_course.Prelude.Double.{Double, IsIeee}
use architecture_course.Auction.Types.{sold, closed_no_bids, User, Item, AuctionManager, EndAuction}
use architecture_course.Auction.Manager.{put_item, is_active, settle, end_auction}
use architecture_course.Auction.History.{IsCoherent, price_after, leader_after, leader_after-All}
use architecture_course.Auction.Invariant.{IsValid}
use architecture_course.Auction.Reachable.{Reachable, Reachable-IsValid}

abbrev pub lost_winner : String
lost_winner = "winner user does not exist (internal state error)"

module _ {ℓ} {W : Type ℓ} ⦃d : Double W⦄ where
  -- The winner of a valid item has an account.
  winner_known :
      (m : AuctionManager W) (k : ℕ) (i : Item W) (w : ℕ)
      → IsValid m
      → lookup k m.items ≡ some i
      → i.highest_bidder_id ≡ some w
      → contains w m.users ≡ true
  winner_known m k i w v e h =
      let item = v.items.at k i e in
      leader_after-All (λ x. contains x m.users ≡ true) none i.bid_history w (λ q. cc)
        item.known.bidders (sym item.coherent.leader ∙ h)

  settle-ne-lost_winner :
      (m : AuctionManager W) (k : ℕ) (i : Item W) (w : ℕ)
      → contains w m.users ≡ true
      → (settle m k i w).0 ≢ err lost_winner
  unfolding settle
  settle-ne-lost_winner m k i w c q =
      ground (arith, eq_iff "winner has insufficient balance at auction end" lost_winner)

  -- In a reachable manager `EndAuction` never reports that the winner does not exist.
  pub end_auction-ne-lost_winner :
      (laws : IsIeee W) (m : AuctionManager W) (k : ℕ)
      → Reachable m
      → (end_auction m k).0 ≢ err lost_winner
  unfolding end_auction
  end_auction-ne-lost_winner laws m k r q = elim (Option-cases (lookup k m.items)) [
    | inl e ↦ ground (arith, eq_iff "item not found" lost_winner)
    | inr (i, e) ↦ elim (Option-cases i.highest_bidder_id) [
      | inl h ↦ ground (arith, eq_iff "auction is not active" lost_winner)
      | inr (w, h) ↦ elim (Bool-cases (is_active i.status)) [
        | inl t ↦
            settle-ne-lost_winner m k i w (winner_known m k i w (Reachable-IsValid laws r) e h)
              (rw (e, end_auction, t, h) at q)
        | inr f ↦ ground (arith, eq_iff "auction is not active" lost_winner)
      ]
    ]
  ]

  -- The result of an auction of item `k`, in the manager before and the manager after.
  pub record IsSettlement (m : AuctionManager W) (k : ℕ) (e : EndAuction W)
      (after : AuctionManager W) : Type ℓ where
    pub winner : e.winner_id ≡ leader_after none e.item.bid_history
    pub price : e.final_price ≡ price_after e.item.starting_bid e.item.bid_history
    pub items : (j : ℕ) → lookup j after.items ≡ (if k == j then some e.item else lookup j m.items)
    pub unsold : e.winner_id ≡ none → (e.item.status ≡ closed_no_bids) × (after.users ≡ m.users)
    pub sale :
        (w : ℕ)
        → e.winner_id ≡ some w
        → (u : User W) × (lookup w m.users ≡ some u)
          × (d.lt u.balance e.final_price ≡ false)
          × (e.item.status ≡ sold)
          × ((j : ℕ)
              → lookup j after.users ≡ (
                  if w == j
                  then some (record u { balance = d.sub u.balance e.final_price })
                  else lookup j m.users))

  -- The outcomes of a sale and of an auction with no bids.
  abbrev sold_end : Item W → ℕ → EndAuction W
  sold_end i w = record {
    item = record i { status = sold };
    winner_id = some w;
    final_price = i.current_bid;
  }

  abbrev sold_manager : AuctionManager W → ℕ → Item W → ℕ → User W → AuctionManager W
  sold_manager m k i w u = record m {
    users = insert w (record u { balance = d.sub u.balance i.current_bid }) m.users;
    items = insert k (record i { status = sold }) m.items;
  }

  abbrev unsold_end : Item W → EndAuction W
  unsold_end i = record {
    item = record i { status = closed_no_bids };
    winner_id = none;
    final_price = i.current_bid;
  }

  sale-IsSettlement :
      (m : AuctionManager W) (k : ℕ) (i : Item W) (w : ℕ) (u : User W)
      → IsCoherent i
      → i.highest_bidder_id ≡ some w
      → lookup w m.users ≡ some u
      → d.lt u.balance i.current_bid ≡ false
      → IsSettlement m k (sold_end i w) (sold_manager m k i w u)
  sale-IsSettlement m k i w u c h n f = record {
    winner = sym h ∙ c.leader;
    price = c.price;
    items = λ j. lookup-insert k j _ m.items;
    unsold = λ q. cc;
    sale = λ v q.
        let same : w ≡ v = some-injective _ _ q in
        rw (← same) (u, n, f, refl, λ j. lookup-insert w j _ m.users);
  }

  unsold-IsSettlement :
      (m : AuctionManager W) (k : ℕ) (i : Item W)
      → IsCoherent i
      → i.highest_bidder_id ≡ none
      → IsSettlement m k (unsold_end i) (put_item k (record i { status = closed_no_bids }) m)
  unsold-IsSettlement m k i c h = record {
    winner = sym h ∙ c.leader;
    price = c.price;
    items = λ j. lookup-insert k j _ m.items;
    unsold = λ q. (refl, refl);
    sale = λ v q. cc;
  }

  -- Two equal successful answers have equal parts.
  same_answer :
      (m : AuctionManager W) (k : ℕ) (e e' : EndAuction W) (a a' : AuctionManager W)
      → ◌≡◌ {A = Result (EndAuction W) × AuctionManager W} (ok e, a) (ok e', a')
      → IsSettlement m k e a
      → IsSettlement m k e' a'
  same_answer m k e e' a a' q s =
      let same : e ≡ e' = cc in let next : a ≡ a' = cc in subst₂ (IsSettlement m k) same next s

  settle-IsSettlement :
      (m : AuctionManager W) (k : ℕ) (i : Item W) (w : ℕ) (e : EndAuction W)
      (after : AuctionManager W)
      → IsCoherent i
      → i.highest_bidder_id ≡ some w
      → settle m k i w ≡ (ok e, after)
      → IsSettlement m k e after
  unfolding settle
  settle-IsSettlement m k i w e after c h q = elim (Option-cases (lookup w m.users)) [
    | inl n ↦ absurd (ground arith)
    | inr (u, n) ↦ elim (Bool-cases (d.lt u.balance i.current_bid)) [
      | inl t ↦ absurd (ground arith)
      | inr f ↦
          same_answer m k (sold_end i w) e (sold_manager m k i w u) after (rw (n, settle, f) at q)
            (sale-IsSettlement m k i w u c h n f)
    ]
  ]

  -- In a reachable manager a successful `EndAuction` names the author of the last bid as the winner
  -- and the last price (the starting bid if there was none) as the final price. It changes only
  -- this item and, if there is a winner, takes the price from the winner's balance, which covers it;
  -- with no winner the accounts stay as they are.
  pub end_auction-IsSettlement :
      (laws : IsIeee W) (m : AuctionManager W) (k : ℕ) (e : EndAuction W) (after : AuctionManager W)
      → Reachable m
      → end_auction m k ≡ (ok e, after)
      → IsSettlement m k e after
  unfolding end_auction
  end_auction-IsSettlement laws m k e after r q = elim (Option-cases (lookup k m.items)) [
    | inl n ↦ absurd (ground arith)
    | inr (i, n) ↦ elim (Bool-cases (is_active i.status)) [
      | inr f ↦ absurd (ground arith)
      | inl t ↦
          let c = ((Reachable-IsValid laws r).items.at k i n).coherent in
          elim (Option-cases i.highest_bidder_id) [
            | inl h ↦
                same_answer m k (unsold_end i) e
                  (put_item k (record i { status = closed_no_bids }) m) after
                  (rw (n, end_auction, t, h) at q) (unsold-IsSettlement m k i c h)
            | inr (w, h) ↦ settle-IsSettlement m k i w e after c h (rw (n, end_auction, t, h) at q)
          ]
    ]
  ]
