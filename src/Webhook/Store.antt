-- ===== src/Webhook/Store.antt =====
-- `StoredEvent` and `EventStore`. The time of an addition is an argument.
use architecture_course.Prelude.{
  ℕ, ◌+◌, ◌-◌, ◌%◌, ◌^◌, String, List, [], ◌∷◌, ◌++◌, if◌then◌else◌, length, ltb,
}
use architecture_course.Prelude.Int.{ℤ}

pub record StoredEvent {ℓ} (P : Type ℓ) : Type ℓ where
  pub id : ℕ
  pub event : String
  pub payload : P
  pub received_at_ms : ℤ

pub record EventStore {ℓ} (P : Type ℓ) : Type ℓ where
  pub events : List (StoredEvent P)
  pub max_events : ℕ
  pub next_id : ℕ

module _ {ℓ} {P : Type ℓ} where
  unfoldable pub new_store : ℕ → EventStore P
  new_store max_events = record { events = []; max_events = max_events; next_id = 1 }

  -- `while (events_.size() > max_events_) events_.pop_front();`
  unfoldable pub trim : ℕ → List (StoredEvent P) → List (StoredEvent P)
  trim max_events [] = []
  trim max_events (e ∷ rest) =
      let popped = trim max_events rest in
      if ltb max_events (length (e ∷ rest)) then popped else e ∷ rest

  -- The id is a `uint64_t`, with its wrap-around written out.
  unfoldable pub add : String → P → ℤ → EventStore P → ℕ × EventStore P
  add event payload now s =
      let stored : StoredEvent P = record {
        id = s.next_id;
        event = event;
        payload = payload;
        received_at_ms = now;
      } in
      let next_id = (s.next_id + 1) % 2 ^ 64 in
      (
        (next_id + 2 ^ 64 - 1) % 2 ^ 64,
        record s { events = trim s.max_events (s.events ++ (stored ∷ [])); next_id = next_id },
      )

  abbrev pub list : EventStore P → List (StoredEvent P)
  list s = s.events
