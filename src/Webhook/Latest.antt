-- ===== src/Webhook/Latest.antt =====
-- The latest of the accepted posts as the events of the store.
use mathlib.Core.Path.{ap₂}
use mathlib.Core.List.{append-nil}
use architecture_course.Prelude.{
  subst, string_eq, ℕ, suc, ◌+◌, ◌-◌, ◌^◌, ◌<◌, String, List, [], ◌∷◌, ◌++◌, ◌≡◌, refl, sym, ap,
  ◌∙◌, subst, arith, inl, inr, length, ltb, drop, Bool-cases, length-append,
}
use architecture_course.Prelude.Int.{ℤ}
use architecture_course.Prelude.Ranges.{drop_all, last_of, last_of-append}
use architecture_course.Webhook.Store.{StoredEvent, EventStore, add, new_store, trim}

pub record Post {ℓ} (P : Type ℓ) : Type ℓ where
  pub event : String
  pub payload : P
  pub at : ℤ

module _ {ℓ} {P : Type ℓ} where
  abbrev pub event_of : ℕ → Post P → StoredEvent P
  event_of id p = record { id = id; event = p.event; payload = p.payload; received_at_ms = p.at }

  -- The posts as events with the ids from `first` on.
  abbrev pub numbered : ℕ → List (Post P) → List (StoredEvent P)
  numbered first [] = []
  numbered first (p ∷ ps) = event_of first p ∷ numbered (first + 1) ps

  pub trim_lem : (n : ℕ) (xs : List (StoredEvent P)) → trim n xs ≡ last_of n xs
  unfolding trim
  trim_lem n [] = sym (drop_all (0 - n) [] (omega arith))
  trim_lem n (x ∷ xs) = elim (Bool-cases (ltb n (length (x ∷ xs)))) [
    | inl many ↦
        let one_more : suc (length xs - n) ≡ suc (length xs) - n = ground arith in
        rw (many, trim) (trim_lem n xs ∙ ap (λ k. drop k (x ∷ xs)) one_more)
    | inr few ↦
        let all_kept : 0 ≡ suc (length xs) - n = ground arith in
        rw (few, trim) (ap (λ k. drop k (x ∷ xs)) all_kept)
  ]

  pub length-numbered : (first : ℕ) (ps : List (Post P)) → length (numbered first ps) ≡ length ps
  length-numbered first [] = refl
  length-numbered first (p ∷ ps) = ap suc (length-numbered (first + 1) ps)

  pub numbered-append :
      (first : ℕ) (ps : List (Post P)) (p : Post P)
      → numbered first (ps ++ (p ∷ [])) ≡ numbered first ps ++ (event_of (first + length ps) p ∷ [])
  numbered-append first [] p = ap (λ k. event_of k p ∷ []) (omega arith)
  numbered-append first (q ∷ ps) p =
      ap (λ l. event_of first q ∷ l)
        (numbered-append (first + 1) ps p
          ∙ ap (λ k. numbered (first + 1) ps ++ (event_of k p ∷ [])) (omega arith))

  -- The store after the posts `log` were accepted.
  pub record IsLatest (max_events : ℕ) (log : List (Post P)) (store : EventStore P) : Type ℓ where
    pub events : store.events ≡ last_of max_events (numbered 1 log)
    pub next : store.next_id ≡ length log + 1
    pub limit : store.max_events ≡ max_events

  pub store_kept :
      (max_events : ℕ) (log : List (Post P)) (store : EventStore P)
      → IsLatest max_events log store
      → IsLatest max_events (log ++ []) store
  store_kept max_events log store h =
      subst (λ l. IsLatest max_events l store) (sym (append-nil log)) h

  pub add-IsLatest :
      (max_events : ℕ) (log : List (Post P)) (p : Post P) (store : EventStore P)
      → length log + 2 < 2 ^ 64
      → IsLatest max_events log store
      → IsLatest max_events (log ++ (p ∷ [])) (add p.event p.payload p.at store).1
        × ((add p.event p.payload p.at store).0 ≡ length log + 1)
  unfolding add
  add-IsLatest max_events log p store small h = (
    record {
      events =
          ap (λ m. trim m (store.events ++ (event_of store.next_id p ∷ []))) h.limit
          ∙ ap₂ (λ es k. trim max_events (es ++ (event_of k p ∷ []))) h.events first_free
          ∙ trim_lem max_events
              (last_of max_events (numbered 1 log) ++ (event_of (1 + length log) p ∷ []))
          ∙ last_of-append max_events (numbered 1 log) (event_of (1 + length log) p)
          ∙ ap (last_of max_events) (sym (numbered-append 1 log p));
      next = omega (arith, first_free, one_more);
      limit = h.limit;
    },
    omega (arith, first_free),
  )
    where
      first_free : store.next_id ≡ 1 + length log
      first_free = h.next ∙ omega arith

      one_more : length (log ++ (p ∷ [])) ≡ length log + 1
      one_more = length-append log (p ∷ [])

  pub start-IsLatest : (max_events : ℕ) → IsLatest max_events [] (new_store max_events)
  unfolding new_store
  start-IsLatest max_events = record {
    events = sym (drop_all (0 - max_events) [] (omega arith));
    next = refl;
    limit = refl;
  }
