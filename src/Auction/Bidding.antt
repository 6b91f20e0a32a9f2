-- ===== src/Auction/Bidding.antt =====
-- The bids that `ApplyAutoBids` places.
use architecture_course.Prelude.{
  length, nat_eq, ℕ, Option, some, List, [], ◌∷◌, ◌++◌, false, ◌≡◌, refl, ◌∙◌, sym, ap,
}
use mathlib.Core.List.{append-nil, append_assoc}
use architecture_course.Prelude.Map.{Map, lookup}
use architecture_course.Prelude.Double.{Double, ◌≼◌, least}
use architecture_course.Auction.Types.{User, Bid, Item, Clock, record_bid}
use architecture_course.Auction.AutoBid.{is_highest, apply_auto_bids}
use architecture_course.Auction.Loop.{Outbids, rounds_keeps}
use architecture_course.Auction.History.{
  price_after, leader_after, price_after-append, leader_after-append,
}

module _ {ℓ} {W : Type ℓ} ⦃d : Double W⦄ (users : Map ℕ (User W)) (step : W)
    (limits : Map ℕ W) where
  -- The bid is covered by its author's limit and balance.
  pub record IsCovered (b : Bid W) : Type ℓ where
    pub max_amount : W
    pub user : User W
    pub limit : lookup b.user_id limits ≡ some max_amount
    pub account : lookup b.user_id users ≡ some user
    pub covered : b.amount ≼ least max_amount user.balance

  -- Every bid is one step above the price that it finds, its author does not hold the highest bid, and
  -- it is covered.
  abbrev pub AreBids : W → Option ℕ → List (Bid W) → Type ℓ
  AreBids price leader [] = Unit
  AreBids price leader (b ∷ bs) =
      (b.amount ≡ d.add price step)
      × (is_highest b.user_id leader ≡ false)
      × IsCovered b
      × AreBids b.amount (some b.user_id) bs

  AreBids-append :
      (price : W) (leader : Option ℕ) (bs : List (Bid W)) (b : Bid W)
      → AreBids price leader bs
      → b.amount ≡ d.add (price_after price bs) step
      → is_highest b.user_id (leader_after leader bs) ≡ false
      → IsCovered b
      → AreBids price leader (bs ++ (b ∷ []))
  unfolding price_after leader_after
  AreBids-append price leader [] b a e h c = (e, h, c, tt)
  AreBids-append price leader (x ∷ bs) b a e h c =
      (a.0, a.1, a.2, AreBids-append x.amount (some x.user_id) bs b a.3 e h c)

  pub record Extends (i next : Item W) : Type ℓ where
    pub added : List (Bid W)
    pub history : next.bid_history ≡ i.bid_history ++ added
    pub bids : AreBids i.current_bid i.highest_bidder_id added
    pub price : next.current_bid ≡ price_after i.current_bid added
    pub leader : next.highest_bidder_id ≡ leader_after i.highest_bidder_id added
    pub limits_kept : next.auto_bid_limits ≡ limits
    pub status : next.status ≡ i.status

  Extends-refl : (i : Item W) → i.auto_bid_limits ≡ limits → Extends i i
  unfolding price_after leader_after
  Extends-refl i e = record {
    added = [];
    history = sym (append-nil i.bid_history);
    bids = tt;
    price = refl;
    leader = refl;
    limits_kept = e;
    status = refl;
  }

  Extends-Outbids :
      (clock : Clock) (u : ℕ) (start i next : Item W)
      → Outbids clock users step u i next
      → Extends start i
      → Extends start next
  Extends-Outbids clock u start i next o x =
      let b : Bid W = record {
        user_id = u;
        amount = d.add i.current_bid step;
        timestamp_ms = clock (length i.bid_history);
      } in
      rw o.bid (
        unfold record_bid in
        record {
          added = x.added ++ (b ∷ []);
          history =
              ap (λ h. h ++ (b ∷ [])) x.history ∙ append_assoc start.bid_history x.added (b ∷ []);
          bids =
              AreBids-append start.current_bid start.highest_bidder_id x.added b x.bids
                (ap (λ p. d.add p step) x.price) (rw x.leader at o.behind)
                (record {
                  max_amount = o.max_amount;
                  user = o.user;
                  limit = rw x.limits_kept at o.limit;
                  account = o.account;
                  covered = o.affordable;
                });
          price = sym (price_after-append start.current_bid x.added b);
          leader = sym (leader_after-append start.highest_bidder_id x.added b);
          limits_kept = x.limits_kept;
          status = x.status;
        })

module _ {ℓ} {W : Type ℓ} ⦃d : Double W⦄ (clock : Clock) (users : Map ℕ (User W)) (step : W) where
  -- `ApplyAutoBids` only appends bids. Each is exactly one step above the price before it, is placed for
  -- a user who does not hold the highest bid at that moment, and is within that user's limit and
  -- balance; the current bid and the highest bidder become those of the last one.
  pub apply_auto_bids-Extends :
      (fuel : ℕ) (i next : Item W)
      → apply_auto_bids clock users step fuel i ≡ some next
      → Extends users step i.auto_bid_limits i next
  unfolding apply_auto_bids
  apply_auto_bids-Extends fuel i next e =
      (rounds_keeps clock users step (Extends users step i.auto_bid_limits i)
        (λ u x y. Extends-Outbids users step i.auto_bid_limits clock u i x y) fuel _ i next e
        (Extends-refl users step i.auto_bid_limits i refl)).0
