-- ===== src/Chat/Reachable.antt =====
-- The reachable states of the chat are sound.
use architecture_course.Prelude.{
  nat_eq, string_eq, ℕ, suc, ◌<◌, String, List, [], ◌∷◌, ◌++◌, true, ◌≡◌, refl, arith, Bool-cases,
  Option-cases, inl, inr, All, All-append, All-map, has, erase_first, Once, Once-erase_first,
}
use architecture_course.Prelude.Map.{lookup, contains}
use architecture_course.Prelude.Map.Laws.{Each-insert, Each-map}
use architecture_course.Chat.Manager.{
  Message, ChatRoom, ChatManager, new_chat, put_room, create_participant, create_room,
  add_participant_to_room, remove_participant_from_room, create_message, is_valid_payload,
}
use architecture_course.Chat.Valid.{
  All-has, All-erase_first, Rising-append, IsRoom, IsMessage, IsSound, new_chat-IsSound,
  create_participant-IsSound,
}

create_room-IsSound :
    (m : ChatManager) (name : String) (creator : ℕ)
    → contains creator m.participants ≡ true
    → IsSound m
    → IsSound (create_room m name creator).1
unfolding create_room has
create_room-IsSound m name creator c v = record {
  participants = v.participants;
  keys = v.keys;
  rooms =
      Each-insert m.next_room_id _
        (record {
          id = refl;
          fresh = omega arith;
          members = (c, tt);
          once = (refl, tt);
          rising = tt;
          messages = tt;
        })
        (Each-map
          (λ k r x. record {
            id = x.id;
            fresh = omega (arith, x.fresh);
            members = x.members;
            once = x.once;
            rising = x.rising;
            messages = x.messages;
          })
          v.rooms);
  first_message = v.first_message;
}

-- A room with other members is valid, if they are participants, each once.
with_members-IsRoom :
    (m : ChatManager) (k : ℕ) (r : ChatRoom) (members : List ℕ)
    → All (λ p. contains p m.participants ≡ true) members
    → Once members
    → IsRoom m k r
    → IsRoom m k (record r { participants = members })
with_members-IsRoom m k r members a o x = record {
  id = x.id;
  fresh = x.fresh;
  members = a;
  once = o;
  rising = x.rising;
  messages = x.messages;
}

put_room-IsSound :
    (m : ChatManager) (k : ℕ) (r : ChatRoom) → IsRoom m k r → IsSound m → IsSound (put_room k r m)
put_room-IsSound m k r x v = record {
  participants = v.participants;
  keys = v.keys;
  rooms =
      Each-map
        (λ j q y. record {
          id = y.id;
          fresh = y.fresh;
          members = y.members;
          once = y.once;
          rising = y.rising;
          messages = y.messages;
        })
        (Each-insert k r x v.rooms);
  first_message = v.first_message;
}

add_participant_to_room-IsSound :
    (m : ChatManager) (k u p : ℕ) → IsSound m → IsSound (add_participant_to_room m k u p).1
unfolding add_participant_to_room
add_participant_to_room-IsSound m k u p v = elim (Option-cases (lookup k m.rooms)) [
  | inl e ↦ rw (e, add_participant_to_room) v
  | inr (r, e) ↦ elim (Bool-cases (contains p m.participants)) [
    | inr c ↦ rw (e, add_participant_to_room, c) v
    | inl c ↦ elim (Bool-cases (has u r.participants)) [
      | inr h ↦ rw (e, add_participant_to_room, c, h) v
      | inl h ↦ elim (Bool-cases (has p r.participants)) [
        | inl o ↦ rw (e, add_participant_to_room, c, h, o) v
        | inr o ↦
            let x = v.rooms.at k r e in
            rw (e, add_participant_to_room, c, h, o)
              (put_room-IsSound m k _
                (with_members-IsRoom m k r (p ∷ r.participants) (c, x.members) (o, x.once) x) v)
      ]
    ]
  ]
]

remove_participant_from_room-IsSound :
    (m : ChatManager) (k u p : ℕ) → IsSound m → IsSound (remove_participant_from_room m k u p).1
unfolding remove_participant_from_room
remove_participant_from_room-IsSound m k u p v = elim (Option-cases (lookup k m.rooms)) [
  | inl e ↦ rw (e, remove_participant_from_room) v
  | inr (r, e) ↦ elim (Bool-cases (has u r.participants)) [
    | inr h ↦ rw (e, remove_participant_from_room, h) v
    | inl h ↦ elim (Bool-cases (has p r.participants)) [
      | inr o ↦ rw (e, remove_participant_from_room, h, o) v
      | inl o ↦
          let x = v.rooms.at k r e in
          rw (e, remove_participant_from_room, h, o)
            (put_room-IsSound m k _
              (with_members-IsRoom m k r (erase_first p r.participants)
                (All-erase_first _ p r.participants x.members)
                (Once-erase_first p r.participants x.once) x)
              v)
    ]
  ]
]

-- The counter of the messages goes up.
with_next_message :
    (m : ChatManager) (k : ℕ) (r : ChatRoom)
    → IsRoom m k r
    → IsRoom (record m { next_message_id = suc m.next_message_id }) k r
with_next_message m k r x = record {
  id = x.id;
  fresh = x.fresh;
  members = x.members;
  once = x.once;
  rising = x.rising;
  messages =
      All-map _ _
        (λ (a : Message) (h : IsMessage m.participants m.next_message_id k a). record {
          room = h.room;
          fresh = omega (arith, h.fresh);
          author = h.author;
          payload = h.payload;
        })
        r.messages x.messages;
}

next_message-IsSound :
    (m : ChatManager) → IsSound m → IsSound (record m { next_message_id = suc m.next_message_id })
next_message-IsSound m v = record {
  participants = v.participants;
  keys = v.keys;
  rooms = Each-map (λ k r x. with_next_message m k r x) v.rooms;
  first_message = omega arith;
}

-- A message under the next id goes to the end of the room's messages.
posted-IsRoom :
    (m : ChatManager) (k : ℕ) (r : ChatRoom) (x : Message)
    → IsRoom m k r
    → x.id ≡ m.next_message_id
    → 0 < m.next_message_id
    → IsMessage m.participants (suc m.next_message_id) k x
    → IsRoom
        (record m { next_message_id = suc m.next_message_id })
        k
        (record r { messages = r.messages ++ (x ∷ []) })
posted-IsRoom m k r x h e z valid =
    let later = with_next_message m k r h in
    record {
      id = h.id;
      fresh = h.fresh;
      members = h.members;
      once = h.once;
      rising = Rising-append 0 r.messages x h.rising (omega (arith, e, z)) (
          All-map _ _
            (λ (a : Message) (q : IsMessage m.participants m.next_message_id k a).
              omega (arith, q.fresh, e))
            r.messages h.messages);
      messages = All-append _ r.messages (x ∷ []) later.messages (valid, tt);
    }

create_message-IsSound :
    (m : ChatManager) (now k u : ℕ) (type text image_url : String)
    → IsSound m
    → IsSound (create_message m now k u type text image_url).1
unfolding create_message
create_message-IsSound m now k u type text image_url v = elim (Option-cases (lookup k m.rooms)) [
  | inl e ↦ rw (e, create_message) v
  | inr (r, e) ↦ elim (Bool-cases (has u r.participants)) [
    | inr h ↦ rw (e, create_message, h) v
    | inl h ↦ elim (Bool-cases (is_valid_payload type text image_url)) [
      | inr o ↦ rw (e, create_message, h, o) v
      | inl o ↦
          let x = v.rooms.at k r e in
          rw (e, create_message, h, o)
            (put_room-IsSound (record m { next_message_id = suc m.next_message_id }) k _
              (posted-IsRoom m k r _ x refl v.first_message (record {
                room = refl;
                fresh = omega arith;
                author =
                    All-has (λ p. contains p m.participants ≡ true) u r.participants x.members h;
                payload = o;
              }))
              (next_message-IsSound m v))
    ]
  ]
]

-- The states that calls lead to; a room is created by a participant, as its handler has authenticated
-- the caller.
pub data Reachable : ChatManager → Type 0 where
  initial : Reachable new_chat
  creates_participant :
      {m : ChatManager} (api_key name : String)
      → Reachable m
      → Reachable (create_participant m api_key name).1
  creates_room :
      {m : ChatManager} (name : String) (creator : ℕ)
      → contains creator m.participants ≡ true
      → Reachable m
      → Reachable (create_room m name creator).1
  adds_participant :
      {m : ChatManager} (room requester participant : ℕ)
      → Reachable m
      → Reachable (add_participant_to_room m room requester participant).1
  removes_participant :
      {m : ChatManager} (room requester participant : ℕ)
      → Reachable m
      → Reachable (remove_participant_from_room m room requester participant).1
  creates_message :
      {m : ChatManager} (now room author : ℕ) (type text image_url : String)
      → Reachable m
      → Reachable (create_message m now room author type text image_url).1

-- In every reachable chat, participants and rooms have their keys as ids, below the counters; an API
-- key leads to the participant who has it; the members of a room are participants, each once; and the
-- messages of a room name it, have rising ids and valid contents, and are by participants.
pub Reachable-IsSound : {m : ChatManager} → Reachable m → IsSound m
Reachable-IsSound initial = new_chat-IsSound
Reachable-IsSound (creates_participant key name r) =
    create_participant-IsSound _ key name (Reachable-IsSound r)
Reachable-IsSound (creates_room name creator c r) =
    create_room-IsSound _ name creator c (Reachable-IsSound r)
Reachable-IsSound (adds_participant k u p r) =
    add_participant_to_room-IsSound _ k u p (Reachable-IsSound r)
Reachable-IsSound (removes_participant k u p r) =
    remove_participant_from_room-IsSound _ k u p (Reachable-IsSound r)
Reachable-IsSound (creates_message now k u type text url r) =
    create_message-IsSound _ now k u type text url (Reachable-IsSound r)
