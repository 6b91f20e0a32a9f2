-- ===== src/Auction/Preserve.antt =====
-- The operations on items keep the invariant, and so does any history of calls.
use architecture_course.Prelude.{
  nat_eq, ℕ, suc, String, Option, none, some, List, [], ◌∷◌, true, ◌≡◌, refl, ◌∙◌, sym, arith,
  Bool-cases, Option-cases, inl, inr, length, is_empty,
}
use architecture_course.Prelude.Map.{lookup, insert}
use architecture_course.Prelude.Map.Laws.{Each-insert, Each-nil, Each-map}
use architecture_course.Prelude.Double.{Double, IsIeee}
use architecture_course.Auction.Types.{
  ItemStatus, draft, active, sold, closed_no_bids, Bid, Item, AuctionManager,
}
use architecture_course.Auction.Manager.{
  is_draft, is_active, add_item, start_auction, settle, end_auction,
}
use architecture_course.Auction.History.{Fits, IsCoherent, price_after, leader_after}
use architecture_course.Auction.Invariant.{IsItem, IsValid, put_item-IsValid, charged-IsValid}

pub is_active→active : (s : ItemStatus) → is_active s ≡ true → s ≡ active
is_active→active s h = ground arith

is_draft→draft : (s : ItemStatus) → is_draft s ≡ true → s ≡ draft
is_draft→draft s h = ground arith

module _ {ℓ} {W : Type ℓ} ⦃d : Double W⦄ where
  added_item-IsValid :
      (m : AuctionManager W) (i : Item W)
      → IsItem m.users (suc m.next_item_id) m.next_item_id i
      → IsValid m
      → IsValid
          (record m { items = insert m.next_item_id i m.items; next_item_id = suc m.next_item_id })
  added_item-IsValid m i h v = record {
    step = v.step;
    users = v.users;
    items = Each-insert m.next_item_id i h (
        Each-map
          (λ k w g. record {
            id = g.id;
            fresh = omega (arith, g.fresh);
            coherent = g.coherent;
            known = g.known;
          })
          v.items);
  }

  pub add_item-IsValid :
      (m : AuctionManager W) (name : String) (starting_bid : W)
      → IsValid m
      → IsValid (add_item m name starting_bid).1
  unfolding add_item
  add_item-IsValid m name starting_bid v = elim (Bool-cases (is_empty name)) [
    | inl e ↦ rw e v
    | inr f ↦ elim (Bool-cases (d.le starting_bid d.nought)) [
      | inl e ↦ rw (f, e) v
      | inr b ↦
          rw (f, b)
            (added_item-IsValid m _
              (record {
                id = refl;
                fresh = omega arith;
                coherent =
                    unfold price_after leader_after in
                    record { price = refl; leader = refl; rising = tt; fits = (refl, refl) };
                known = record { bidders = tt; limits = Each-nil };
              })
              v)
    ]
  ]

  -- An item that changes its status only.
  restated-IsItem :
      (m : AuctionManager W) (k : ℕ) (i : Item W) (s : ItemStatus)
      → IsItem m.users m.next_item_id k i
      → Fits s i
      → IsItem m.users m.next_item_id k (record i { status = s })
  restated-IsItem m k i draft h f = record {
    id = h.id;
    fresh = h.fresh;
    coherent = record {
      price = h.coherent.price;
      leader = h.coherent.leader;
      rising = h.coherent.rising;
      fits = f;
    };
    known = record { bidders = h.known.bidders; limits = h.known.limits };
  }
  restated-IsItem m k i _ h f = record {
    id = h.id;
    fresh = h.fresh;
    coherent = record {
      price = h.coherent.price;
      leader = h.coherent.leader;
      rising = h.coherent.rising;
      fits = f;
    };
    known = record { bidders = h.known.bidders; limits = h.known.limits };
  }

  pub start_auction-IsValid :
      (m : AuctionManager W) (k : ℕ) → IsValid m → IsValid (start_auction m k).1
  unfolding start_auction
  start_auction-IsValid m k v = elim (Option-cases (lookup k m.items)) [
    | inl e ↦ rw (e, start_auction) v
    | inr (i, e) ↦ elim (Bool-cases (is_draft i.status)) [
      | inl t ↦
          rw (e, start_auction, t)
            (put_item-IsValid m k _ (restated-IsItem m k i active (v.items.at k i e) tt) v)
      | inr f ↦ rw (e, start_auction, f) v
    ]
  ]

  leader_some_after : (w : ℕ) (bs : List (Bid W)) {A : Type 0} → leader_after (some w) bs ≡ none → A
  unfolding leader_after
  leader_some_after w [] e = cc
  leader_some_after w (b ∷ bs) e = leader_some_after b.user_id bs e

  leader_none_after : (o : Option ℕ) (bs : List (Bid W)) → leader_after o bs ≡ none → length bs ≡ 0
  unfolding leader_after
  leader_none_after o [] e = refl
  leader_none_after o (b ∷ bs) e = leader_some_after b.user_id bs e

  leader_none : (i : Item W) → IsCoherent i → i.highest_bidder_id ≡ none → length i.bid_history ≡ 0
  unfolding leader_after
  leader_none i c e = leader_none_after none i.bid_history (sym c.leader ∙ e)

  settle-IsValid :
      (laws : IsIeee W) (m : AuctionManager W) (k : ℕ) (i : Item W) (w : ℕ)
      → lookup k m.items ≡ some i
      → i.highest_bidder_id ≡ some w
      → IsValid m
      → IsValid (settle m k i w).1
  unfolding settle
  settle-IsValid laws m k i w e h v = elim (Option-cases (lookup w m.users)) [
    | inl n ↦ rw (n, settle) v
    | inr (u, n) ↦ elim (Bool-cases (d.lt u.balance i.current_bid)) [
      | inl t ↦ rw (n, settle, t) v
      | inr f ↦
          let paid : AuctionManager W = record m {
            users = insert w (record u { balance = d.sub u.balance i.current_bid }) m.users;
          } in
          let v' : IsValid paid = charged-IsValid m w u _ n (laws.sub_nonneg _ _ f) v in
          rw (n, settle, f)
            (put_item-IsValid paid k _ (restated-IsItem paid k i sold (v'.items.at k i e) (rw h))
              v')
    ]
  ]

  pub end_auction-IsValid :
      (laws : IsIeee W) (m : AuctionManager W) (k : ℕ) → IsValid m → IsValid (end_auction m k).1
  unfolding end_auction
  end_auction-IsValid laws m k v = elim (Option-cases (lookup k m.items)) [
    | inl e ↦ rw (e, end_auction) v
    | inr (i, e) ↦ elim (Bool-cases (is_active i.status)) [
      | inr f ↦ rw (e, end_auction, f) v
      | inl t ↦ elim (Option-cases i.highest_bidder_id) [
        | inl n ↦
            rw (e, end_auction, t, n)
              (put_item-IsValid m k _
                (restated-IsItem m k i closed_no_bids (v.items.at k i e)
                  (leader_none i (v.items.at k i e).coherent n))
                v)
        | inr (w, h) ↦ rw (e, end_auction, t, h) (settle-IsValid laws m k i w e h v)
      ]
    ]
  ]
