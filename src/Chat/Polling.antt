-- ===== src/Chat/Polling.antt =====
-- Rooms stay, so that every poll that waits is answered.
use architecture_course.Prelude.{
  nat_eq, string_eq, ℕ, String, Option, none, some, List, true, ◌≡◌, refl, arith, Option-cases, inl,
  inr,
}
use architecture_course.Prelude.Map.{lookup, insert, contains}
use architecture_course.Prelude.Map.Laws.{contains-insert}
use architecture_course.Chat.Manager.{
  Message, read, start_poll, finish_poll, filter_messages, ChatRoom, put_room, ChatManager,
  create_participant, create_room, add_participant_to_room, remove_participant_from_room,
  create_message,
}
use architecture_course.Prelude.Int.{ℤ, pos, negsuc}
use architecture_course.Chat.Query.{query_int64}
use architecture_course.Chat.Handlers.{
  resolve_auth_participant, poll_room_messages, polled_room_messages, poll_reply,
}
use architecture_course.Chat.Serving.{IsClosed, Result-cases}

-- Every room that is there stays there.
abbrev pub Grows : ChatManager → ChatManager → Type 0
Grows m after = (k : ℕ) → contains k m.rooms ≡ true → contains k after.rooms ≡ true

put_room-Grows : (m : ChatManager) (r : ℕ) (room : ChatRoom) → Grows m (put_room r room m)
put_room-Grows m r room k h = contains-insert r k room m.rooms h

add_participant_to_room-Grows :
    (m : ChatManager) (r u p : ℕ) → Grows m (add_participant_to_room m r u p).1
unfolding add_participant_to_room
add_participant_to_room-Grows m r u p k h =
    let kept : (room : ChatRoom) → contains k (insert r room m.rooms) ≡ true =
      λ room. put_room-Grows m r room k h in
    grind (arith, kept)

remove_participant_from_room-Grows :
    (m : ChatManager) (r u p : ℕ) → Grows m (remove_participant_from_room m r u p).1
unfolding remove_participant_from_room
remove_participant_from_room-Grows m r u p k h =
    let kept : (room : ChatRoom) → contains k (insert r room m.rooms) ≡ true =
      λ room. put_room-Grows m r room k h in
    grind (arith, kept)

create_message-Grows :
    (m : ChatManager) (now r u : ℕ) (type text image_url : String)
    → Grows m (create_message m now r u type text image_url).1
unfolding create_message
create_message-Grows m now r u type text image_url k h =
    let kept : (room : ChatRoom) → contains k (insert r room m.rooms) ≡ true =
      λ room. put_room-Grows m r room k h in
    grind (arith, kept)

pub Grows-IsClosed : (m : ChatManager) → IsClosed (Grows m) m
unfolding create_participant create_room
Grows-IsClosed m = record {
  kept = λ k h. h;
  participant = λ api_key name k h. h;
  room = λ api_key name id e k h. contains-insert m.next_room_id k _ m.rooms h;
  added = λ r u p. add_participant_to_room-Grows m r u p;
  removed = λ r u p. remove_participant_from_room-Grows m r u p;
  posted = λ now r u type text image_url. create_message-Grows m now r u type text image_url;
}

-- A poll waits only in a room that is there.
start_poll_waits :
    (m : ChatManager) (room_id requester_id : ℕ) (since_id from_ts : ℤ)
    → start_poll m room_id requester_id since_id from_ts ≡ none
    → contains room_id m.rooms ≡ true
unfolding start_poll
start_poll_waits m room_id requester_id since_id from_ts e =
    elim (Option-cases (lookup room_id m.rooms)) [
      | inl n ↦ absurd (ground arith)
      | inr (room, n) ↦ rw n refl
    ]

pub poll_waits :
    (m : ChatManager) (api_key : String) (room : Option ℕ) (since_id from_ts : Option String)
    → poll_room_messages m api_key room since_id from_ts ≡ none
    → (id : ℕ) × (room ≡ some id) × (contains id m.rooms ≡ true)
unfolding poll_room_messages
poll_waits m api_key none since_id from_ts e =
    elim (Result-cases (resolve_auth_participant m api_key)) [
      | inl (message, r) ↦ absurd (ground arith)
      | inr (id, r) ↦ absurd (ground arith)
    ]
poll_waits m api_key (some room_id) since_id from_ts e =
    elim (Result-cases (resolve_auth_participant m api_key)) [
      | inl (message, r) ↦ absurd (ground arith)
      | inr (id, r) ↦ (
        room_id,
        refl,
        start_poll_waits m room_id id (query_int64 since_id (pos 0)) (query_int64 from_ts (pos 0))
            (ground (arith, e, r)),
      )
    ]

-- The messages that a poll with these parameters asks for in a room.
abbrev pub asked_of : ChatRoom → (since_id from_ts : Option String) → List Message
asked_of room since_id from_ts =
    filter_messages room (query_int64 since_id (pos 0)) (query_int64 from_ts (pos 0)) (negsuc 0)

-- After the wait there is an answer, with the messages that the room then has.
pub polled_lem :
    (m : ChatManager) (room_id : ℕ) (since_id from_ts : Option String)
    → contains room_id m.rooms ≡ true
    → (room : ChatRoom) × (lookup room_id m.rooms ≡ some room)
      × (polled_room_messages m room_id since_id from_ts
          ≡ some (poll_reply (read (asked_of room since_id from_ts))))
unfolding polled_room_messages finish_poll
polled_lem m room_id since_id from_ts h = elim (Option-cases (lookup room_id m.rooms)) [
  | inl n ↦ absurd (ground arith)
  | inr (room, n) ↦ (room, n, rw (polled_room_messages, finish_poll, n) refl)
]
