-- ===== src/Chat/Manager.antt =====
-- The data and the operations of `ChatManager`, each one step under its mutex. An `int64_t` id is its
-- bit pattern, and the counters count up from 1 and are not run past 2^63 - 1.
use architecture_course.Prelude.{
  nat_eq, string_eq, ℕ, suc, String, Option, none, some, List, [], ◌∷◌, ◌++◌, Bool, true, false,
  not, ◌&&◌, ◌==◌, if◌then◌else◌, is_empty, has, erase_first, keep_if,
}
use architecture_course.Prelude.Int.{ℤ, pos, negsuc, ltb_ℤ, leb_ℤ}
use architecture_course.Prelude.Map.{Map, lookup, insert, contains}

pub record Participant : Type 0 where
  pub id : ℕ
  pub name : String
  pub api_key : String

pub record Message : Type 0 where
  pub id : ℕ
  pub room_id : ℕ
  pub author_id : ℕ
  pub type : String
  pub text : String
  pub image_url : String
  pub created_at_ms : ℕ

pub record ChatRoom : Type 0 where
  pub id : ℕ
  pub name : String
  pub participants : List ℕ
  pub messages : List Message

pub record ChatManager : Type 0 where
  pub participants : Map ℕ Participant
  pub api_key_index : Map String ℕ
  pub rooms : Map ℕ ChatRoom
  pub next_participant_id : ℕ
  pub next_room_id : ℕ
  pub next_message_id : ℕ

pub data RoomMutationResult : Type 0 where
  mutated room_not_found participant_not_found forbidden already_member not_member :
      RoomMutationResult

pub data MessagePostResult : Type 0 where
  posted : Message → MessagePostResult
  post_room_not_found post_not_in_room invalid_payload : MessagePostResult

pub data ReadResult : Type 0 where
  read : List Message → ReadResult
  read_room_not_found read_not_in_room : ReadResult

unfoldable pub new_chat : ChatManager
new_chat = record {
  participants = [];
  api_key_index = [];
  rooms = [];
  next_participant_id = 1;
  next_room_id = 1;
  next_message_id = 1;
}

abbrev pub put_room : ℕ → ChatRoom → ChatManager → ChatManager
put_room room_id room m = record m { rooms = insert room_id room m.rooms }

-- `api_key` is what `GenerateApiKey` draws: 32 random hexadecimal digits.
unfoldable pub create_participant : ChatManager → String → String → Participant × ChatManager
create_participant m api_key name =
    let participant : Participant = record {
      id = m.next_participant_id;
      name = name;
      api_key = api_key;
    } in
    (
      participant,
      record m {
        participants = insert m.next_participant_id participant m.participants;
        api_key_index = insert api_key m.next_participant_id m.api_key_index;
        next_participant_id = suc m.next_participant_id;
      },
    )

unfoldable pub authenticate : ChatManager → String → Option ℕ
authenticate m api_key = lookup api_key m.api_key_index

unfoldable pub create_room : ChatManager → String → ℕ → ChatRoom × ChatManager
create_room m name creator_id =
    let room : ChatRoom = record {
      id = m.next_room_id;
      name = name;
      participants = creator_id ∷ [];
      messages = [];
    } in
    (
      room,
      record m { rooms = insert m.next_room_id room m.rooms; next_room_id = suc m.next_room_id },
    )

-- The set of a room's participants is a list: an insertion is made only of what is not in it.
unfoldable pub add_participant_to_room : ChatManager → ℕ → ℕ → ℕ → RoomMutationResult × ChatManager
add_participant_to_room m room_id requester_id participant_id = elim (lookup room_id m.rooms) [
  | none ↦ (room_not_found, m)
  | some room ↦
      if not (contains participant_id m.participants)
      then (participant_not_found, m)
      else if not (has requester_id room.participants)
      then (forbidden, m)
      else if has participant_id room.participants
      then (already_member, m)
      else (
        mutated,
        put_room room_id (record room { participants = participant_id ∷ room.participants }) m,
      )
]

unfoldable pub remove_participant_from_room :
    ChatManager → ℕ → ℕ → ℕ → RoomMutationResult × ChatManager
remove_participant_from_room m room_id requester_id participant_id = elim (lookup room_id m.rooms) [
  | none ↦ (room_not_found, m)
  | some room ↦
      if not (has requester_id room.participants)
      then (forbidden, m)
      else if not (has participant_id room.participants)
      then (not_member, m)
      else (
        mutated,
        put_room room_id
            (record room { participants = erase_first participant_id room.participants }) m,
      )
]

-- The three tests of a message's type and content.
abbrev pub is_valid_payload : String → String → String → Bool
is_valid_payload type text image_url =
    let is_text = type == "text" in
    let is_image = type == "image" in
    if not is_text && not is_image
    then false
    else if is_text && is_empty text
    then false
    else if is_image && is_empty image_url
    then false
    else true

-- `now` is the reading of `NowUnixMs`.
unfoldable pub create_message :
    ChatManager
    → (now room_id author_id : ℕ) (type text image_url : String) → MessagePostResult × ChatManager
create_message m now room_id author_id type text image_url = elim (lookup room_id m.rooms) [
  | none ↦ (post_room_not_found, m)
  | some room ↦
      if not (has author_id room.participants)
      then (post_not_in_room, m)
      else if not (is_valid_payload type text image_url)
      then (invalid_payload, m)
      else let message : Message = record {
        id = m.next_message_id;
        room_id = room_id;
        author_id = author_id;
        type = type;
        text = text;
        image_url = image_url;
        created_at_ms = now;
      } in
        (
          posted message,
          record m {
            rooms =
                insert room_id (record room { messages = room.messages ++ (message ∷ []) }) m.rooms;
            next_message_id = suc m.next_message_id;
          },
        )
]

-- The body of the loop of `FilterMessages`: whether the message is kept.
abbrev pub is_kept : ℤ → ℤ → ℤ → Message → Bool
is_kept since_id from_ts_ms to_ts_ms message =
    if leb_ℤ (pos message.id) since_id
    then false
    else if ltb_ℤ (pos 0) from_ts_ms && ltb_ℤ (pos message.created_at_ms) from_ts_ms
    then false
    else if ltb_ℤ (pos 0) to_ts_ms && ltb_ℤ to_ts_ms (pos message.created_at_ms)
    then false
    else true

unfoldable pub filter_messages : ChatRoom → ℤ → ℤ → ℤ → List Message
filter_messages room since_id from_ts_ms to_ts_ms =
    keep_if (is_kept since_id from_ts_ms to_ts_ms) room.messages

unfoldable pub get_messages : ChatManager → ℕ → ℕ → ℤ → ℤ → ℤ → ReadResult
get_messages m room_id requester_id since_id from_ts_ms to_ts_ms = elim (lookup room_id m.rooms) [
  | none ↦ read_room_not_found
  | some room ↦
      if not (has requester_id room.participants)
      then read_not_in_room
      else read (filter_messages room since_id from_ts_ms to_ts_ms)
]

-- `PollMessages` up to `wait_for`: an answer at once, or `none` if it waits.
unfoldable pub start_poll : ChatManager → ℕ → ℕ → ℤ → ℤ → Option ReadResult
start_poll m room_id requester_id since_id from_ts_ms = elim (lookup room_id m.rooms) [
  | none ↦ some read_room_not_found
  | some room ↦
      if not (has requester_id room.participants)
      then some read_not_in_room
      else elim (filter_messages room since_id from_ts_ms (negsuc 0)) [
        | [] ↦ none
        | message ∷ rest ↦ some (read (message ∷ rest))
      ]
]

-- `PollMessages` after `wait_for`, in the manager as it then is. Rooms are never removed, so the
-- reference taken before the wait is to the room that is found again; `none` is a room that is gone.
unfoldable pub finish_poll : ChatManager → ℕ → ℤ → ℤ → Option ReadResult
finish_poll m room_id since_id from_ts_ms = elim (lookup room_id m.rooms) [
  | none ↦ none
  | some room ↦ some (read (filter_messages room since_id from_ts_ms (negsuc 0)))
]
