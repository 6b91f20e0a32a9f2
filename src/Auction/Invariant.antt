-- ===== src/Auction/Invariant.antt =====
-- The invariant of the auction manager, and that every operation keeps it.
use architecture_course.Prelude.{
  nat_eq, ℕ, suc, String, some, true, false, ◌≡◌, refl, arith, Bool-cases, Option-cases, All-map,
  ◌<◌, inl, inr, is_empty,
}
use architecture_course.Prelude.Map.{Map, lookup, insert, contains}
use architecture_course.Prelude.Map.Laws.{Each, Each-insert, Each-nil, Each-map, contains-insert}
use architecture_course.Prelude.Double.{Double}
use architecture_course.Auction.Types.{User, Item, AuctionManager, new_manager}
use architecture_course.Auction.Manager.{put_item, create_user, update_balance}
use architecture_course.Auction.History.{IsCoherent, IsKnown}

module _ {ℓ} {W : Type ℓ} ⦃d : Double W⦄ where
  pub record IsUser (next key : ℕ) (u : User W) : Type ℓ where
    pub id : u.id ≡ key
    pub fresh : key < next
    pub solvent : d.lt u.balance d.nought ≡ false

  pub record IsItem (users : Map ℕ (User W)) (next key : ℕ) (i : Item W) : Type ℓ where
    pub id : i.id ≡ key
    pub fresh : key < next
    pub coherent : IsCoherent i
    pub known : IsKnown users i

  -- Keys are ids below the counters, balances are not negative, and every item agrees with its
  -- history and names existing users only.
  pub record IsValid (m : AuctionManager W) : Type ℓ where
    pub step : m.min_bid_step ≡ d.unit
    pub users : Each (IsUser m.next_user_id) m.users
    pub items : Each (IsItem m.users m.next_item_id) m.items

  IsKnown-mono :
      (users more : Map ℕ (User W)) (i : Item W)
      → ((w : ℕ) → contains w users ≡ true → contains w more ≡ true)
      → IsKnown users i
      → IsKnown more i
  IsKnown-mono users more i f k = record {
    bidders = All-map _ _ (λ b. f b.user_id) i.bid_history k.bidders;
    limits = Each-map (λ w _. f w) k.limits;
  }

  -- A write to `users_` keeps the items.
  items-insert_user :
      (m : AuctionManager W) (k : ℕ) (u : User W)
      → IsValid m
      → Each (IsItem (insert k u m.users) m.next_item_id) m.items
  items-insert_user m k u v =
      Each-map
        (λ j i h. record {
          id = h.id;
          fresh = h.fresh;
          coherent = h.coherent;
          known = IsKnown-mono m.users _ i (λ w. contains-insert k w u m.users) h.known;
        })
        v.items

  pub put_item-IsValid :
      (m : AuctionManager W) (k : ℕ) (i : Item W)
      → IsItem m.users m.next_item_id k i
      → IsValid m
      → IsValid (put_item k i m)
  put_item-IsValid m k i h v = record {
    step = v.step;
    users = v.users;
    items = Each-insert k i h v.items;
  }

  pub new_manager-IsValid : IsValid new_manager
  unfolding new_manager
  new_manager-IsValid = record { step = refl; users = Each-nil; items = Each-nil }

  added_user-IsValid :
      (m : AuctionManager W) (u : User W)
      → u.id ≡ m.next_user_id
      → d.lt u.balance d.nought ≡ false
      → IsValid m
      → IsValid
          (record m { users = insert m.next_user_id u m.users; next_user_id = suc m.next_user_id })
  added_user-IsValid m u e b v = record {
    step = v.step;
    users =
        Each-insert m.next_user_id u (record { id = e; fresh = omega arith; solvent = b })
          (Each-map
            (λ k w h. record { id = h.id; fresh = omega (arith, h.fresh); solvent = h.solvent })
            v.users);
    items = items-insert_user m m.next_user_id u v;
  }

  pub create_user-IsValid :
      (m : AuctionManager W) (name : String) (balance : W)
      → IsValid m
      → IsValid (create_user m name balance).1
  unfolding create_user
  create_user-IsValid m name balance v = elim (Bool-cases (is_empty name)) [
    | inl e ↦ rw e v
    | inr f ↦ elim (Bool-cases (d.lt balance d.nought)) [
      | inl e ↦ rw (f, e) v
      | inr b ↦ rw (f, b) (added_user-IsValid m _ refl b v)
    ]
  ]

  pub charged-IsValid :
      (m : AuctionManager W) (k : ℕ) (u : User W) (balance : W)
      → lookup k m.users ≡ some u
      → d.lt balance d.nought ≡ false
      → IsValid m
      → IsValid (record m { users = insert k (record u { balance = balance }) m.users })
  charged-IsValid m k u balance e b v =
      let h = v.users.at k u e in
      record {
        step = v.step;
        users = Each-insert k _ (record { id = h.id; fresh = h.fresh; solvent = b }) v.users;
        items = items-insert_user m k _ v;
      }

  pub update_balance-IsValid :
      (m : AuctionManager W) (k : ℕ) (delta : W) → IsValid m → IsValid (update_balance m k delta).1
  unfolding update_balance
  update_balance-IsValid m k delta v = elim (Option-cases (lookup k m.users)) [
    | inl e ↦ rw (e, update_balance) v
    | inr (u, e) ↦ elim (Bool-cases (d.lt (d.add u.balance delta) d.nought)) [
      | inl t ↦ rw (e, update_balance, t) v
      | inr b ↦ rw (e, update_balance, b) (charged-IsValid m k u _ e b v)
    ]
  ]
