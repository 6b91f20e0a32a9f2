-- ===== src/Chat/Valid.antt =====
-- What every sequence of calls keeps of the chat.
use architecture_course.Prelude.{
  nat_eq, string_eq, ℕ, ◌<◌, String, some, List, [], ◌∷◌, ◌++◌, true, ◌≡◌, refl, arith, Bool-cases,
  inl, inr, All, All-map, has, erase_first, Once, nat_beq_iff, ◌==◌,
}
use architecture_course.Prelude.Map.{Map, lookup, insert, contains}
use architecture_course.Prelude.Map.Laws.{
  lookup-insert_self, Each, Each-insert, Each-map, Each-nil, contains-insert, lookup-insert,
}
use architecture_course.Chat.Manager.{
  Participant, Message, ChatRoom, ChatManager, new_chat, create_participant, is_valid_payload,
}

module _ {κ} (P : ℕ → Type κ) where
  pub All-has : (a : ℕ) (xs : List ℕ) → All P xs → has a xs ≡ true → P a
  unfolding has
  All-has a [] h e = cc
  All-has a (x ∷ xs) h e = elim (Bool-cases (x == a)) [
    | inl t ↦ rw (← (nat_beq_iff x a).0 t) h.0
    | inr f ↦ All-has a xs h.1 (ground arith)
  ]

  pub All-erase_first : (a : ℕ) (xs : List ℕ) → All P xs → All P (erase_first a xs)
  unfolding erase_first
  All-erase_first a [] h = tt
  All-erase_first a (x ∷ xs) h = elim (Bool-cases (x == a)) [
    | inl t ↦ rw t h.1
    | inr f ↦ rw (f, erase_first) (h.0, All-erase_first a xs h.1)
  ]

-- Ids that rise, the first above `low`.
abbrev pub Rising : ℕ → List Message → Type 0
Rising low [] = Unit
Rising low (m ∷ ms) = (low < m.id) × Rising m.id ms

pub Rising-append :
    (low : ℕ) (ms : List Message) (x : Message)
    → Rising low ms
    → low < x.id
    → All (λ (m : Message). m.id < x.id) ms
    → Rising low (ms ++ (x ∷ []))
Rising-append low [] x r l a = (l, tt)
Rising-append low (m ∷ ms) x r l a = (r.0, Rising-append m.id ms x r.1 a.0 a.1)

pub record IsParticipant (next key : ℕ) (p : Participant) : Type 0 where
  pub id : p.id ≡ key
  pub fresh : key < next

pub record IsKey (participants : Map ℕ Participant) (key : String) (id : ℕ) : Type 0 where
  pub participant : Participant
  pub stored : lookup id participants ≡ some participant
  pub api_key : participant.api_key ≡ key

pub record IsMessage (participants : Map ℕ Participant) (next room_id : ℕ) (x : Message)
    : Type 0 where
  pub room : x.room_id ≡ room_id
  pub fresh : x.id < next
  pub author : contains x.author_id participants ≡ true
  pub payload : is_valid_payload x.type x.text x.image_url ≡ true

pub record IsRoom (m : ChatManager) (key : ℕ) (r : ChatRoom) : Type 0 where
  pub id : r.id ≡ key
  pub fresh : key < m.next_room_id
  pub members : All (λ p. contains p m.participants ≡ true) r.participants
  pub once : Once r.participants
  pub rising : Rising 0 r.messages
  pub messages : All (IsMessage m.participants m.next_message_id key) r.messages

-- Participants and rooms have their keys as ids, below the counters; an API key leads to the
-- participant who has it; the members of a room are participants, each once; and the messages of a room
-- have rising ids and valid contents, and their authors are participants.
pub record IsSound (m : ChatManager) : Type 0 where
  pub participants : Each (IsParticipant m.next_participant_id) m.participants
  pub keys : Each (IsKey m.participants) m.api_key_index
  pub rooms : Each (IsRoom m) m.rooms
  pub first_message : 0 < m.next_message_id

pub new_chat-IsSound : IsSound new_chat
unfolding new_chat
new_chat-IsSound = record {
  participants = Each-nil;
  keys = Each-nil;
  rooms = Each-nil;
  first_message = omega arith;
}

-- A key that is not in use yet is above all keys in use.
fresh_differs :
    (m : ChatManager) (id : ℕ) (p q : Participant)
    → IsSound m
    → lookup id m.participants ≡ some p
    → lookup id (insert m.next_participant_id q m.participants) ≡ some p
fresh_differs m id p q v e =
    let f = (v.participants.at id p e).fresh in
    ground (arith, lookup-insert m.next_participant_id id q m.participants)

later-IsRoom :
    (m : ChatManager) (p : Participant) (keys : Map String ℕ) (n k : ℕ) (r : ChatRoom)
    → IsRoom m k r
    → IsRoom
        (record m {
          participants = insert m.next_participant_id p m.participants;
          api_key_index = keys;
          next_participant_id = n;
        })
        k
        r
later-IsRoom m p keys n k r x =
    let stays = λ (j : ℕ) (h : contains j m.participants ≡ true).
      contains-insert m.next_participant_id j p m.participants h in
    record {
      id = x.id;
      fresh = x.fresh;
      members = All-map _ _ (λ j h. stays j h) r.participants x.members;
      once = x.once;
      rising = x.rising;
      messages =
          All-map _ _
            (λ (a : Message) (h : IsMessage m.participants m.next_message_id k a). record {
              room = h.room;
              fresh = h.fresh;
              author = stays a.author_id h.author;
              payload = h.payload;
            })
            r.messages x.messages;
    }

pub create_participant-IsSound :
    (m : ChatManager) (api_key name : String)
    → IsSound m
    → IsSound (create_participant m api_key name).1
unfolding create_participant
create_participant-IsSound m api_key name v = record {
  participants =
      Each-insert m.next_participant_id _ (record { id = refl; fresh = omega arith })
        (Each-map (λ k p x. record { id = x.id; fresh = omega (arith, x.fresh) }) v.participants);
  keys =
      Each-insert api_key _
        (record {
          participant = record { id = m.next_participant_id; name = name; api_key = api_key };
          stored = lookup-insert_self _ _ m.participants;
          api_key = refl;
        })
        (Each-map
          (λ k id x. record {
            participant = x.participant;
            stored = fresh_differs m id x.participant _ v x.stored;
            api_key = x.api_key;
          })
          v.keys);
  rooms = Each-map (λ k r x. later-IsRoom m _ _ _ k r x) v.rooms;
  first_message = v.first_message;
}
