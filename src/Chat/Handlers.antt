-- ===== src/Chat/Handlers.antt =====
-- main.cpp: the handlers of the chat's API. JSON and the text of a request are parameters.
use architecture_course.Prelude.{
  string_eq, ℕ, String, Option, none, some, List, [], ◌∷◌, if◌then◌else◌, is_empty, Result, ok, err,
  Reply, replied, failed, thrown,
}
use architecture_course.Prelude.Int.{pos, negsuc}
use architecture_course.Chat.Query.{query_int64}
use architecture_course.Chat.Manager.{
  Participant, Message, ChatManager, RoomMutationResult, mutated, room_not_found,
  participant_not_found, forbidden, already_member, not_member, MessagePostResult, posted,
  post_room_not_found, post_not_in_room, invalid_payload, ReadResult, read, read_room_not_found,
  read_not_in_room, create_participant, authenticate, create_room, add_participant_to_room,
  remove_participant_from_room, create_message, get_messages, start_poll, finish_poll,
}

-- `json::parse` of a body, and a field that is there (`contains`) and of the wanted kind (`is_string`,
-- `is_number_integer`).
pub record Bodies {ℓ} (J : Type ℓ) : Type ℓ where
  pub parse : String → Option J
  pub string_field : String → J → Option String
  pub integer_field : String → J → Option ℕ

-- The participant of an API key, or the message of a 401.
unfoldable pub resolve_auth_participant : ChatManager → String → Result ℕ
resolve_auth_participant m api_key =
    if is_empty api_key
    then err "Missing X-API-Key header"
    else elim (authenticate m api_key) [ none ↦ err "Invalid API key" | some id ↦ ok id ]

-- The statuses of the results.
abbrev pub mutation_reply : RoomMutationResult → Reply (Unit {0})
mutation_reply mutated = replied 204 tt
mutation_reply room_not_found = failed 404 "Room not found"
mutation_reply participant_not_found = failed 404 "Participant not found"
mutation_reply forbidden = failed 403 "Requester is not in room"
mutation_reply already_member = failed 409 "Participant is already in room"
mutation_reply not_member = failed 404 "Participant is not in room"

abbrev pub post_reply : MessagePostResult → Reply Message
post_reply (posted message) = replied 201 message
post_reply post_room_not_found = failed 404 "Room not found"
post_reply post_not_in_room = failed 403 "Requester is not in room"
post_reply invalid_payload = failed 400 "Invalid message payload for selected type (text/image)"

abbrev pub read_reply : ReadResult → Reply (List Message)
read_reply (read messages) = replied 200 messages
read_reply read_room_not_found = failed 404 "Room not found"
read_reply read_not_in_room = failed 403 "Requester is not in room"

-- A poll without messages is answered with 204.
abbrev pub poll_reply : ReadResult → Reply (List Message)
poll_reply (read []) = replied 204 []
poll_reply (read (m ∷ ms)) = replied 200 (m ∷ ms)
poll_reply read_room_not_found = read_reply read_room_not_found
poll_reply read_not_in_room = read_reply read_not_in_room

abbrev pub text_or_empty : Option String → String
text_or_empty none = ""
text_or_empty (some s) = s

module _ {ℓ} {J : Type ℓ} (bodies : Bodies J) (m : ChatManager) where
  open bodies use {parse, string_field, integer_field}

  -- The `name` of a body, or the message of a 400.
  abbrev pub read_name : String → Result String
  read_name body = elim (parse body) [
    | none ↦ err "Invalid JSON body"
    | some j ↦ elim (string_field "name" j) [
      | none ↦ err "Field 'name' is required"
      | some name ↦ if is_empty name then err "Field 'name' must be non-empty" else ok name
    ]
  ]

  -- `POST /participants`; `api_key` is the key that will be drawn.
  unfoldable pub post_participants : String → String → Reply Participant × ChatManager
  post_participants api_key body = elim (read_name body) [
    | err message ↦ (failed 400 message, m)
    | ok name ↦
        let (participant, after) = create_participant m api_key name in
        (replied 201 participant, after)
  ]

  -- `POST /rooms`
  unfoldable pub post_rooms : String → String → Reply (ℕ × String) × ChatManager
  post_rooms api_key body = elim (resolve_auth_participant m api_key) [
    | err message ↦ (failed 401 message, m)
    | ok requester_id ↦ elim (read_name body) [
      | err message ↦ (failed 400 message, m)
      | ok name ↦
          let (room, after) = create_room m name requester_id in
          (replied 201 (room.id, room.name), after)
    ]
  ]

  -- `POST /rooms/{id}/participants`. An id of the path that `std::stoll` does not read is `none`.
  unfoldable pub post_room_participants :
      String → Option ℕ → String → Reply (Unit {0}) × ChatManager
  post_room_participants api_key room body = elim (resolve_auth_participant m api_key) [
    | err message ↦ (failed 401 message, m)
    | ok requester_id ↦ elim (parse body) [
      | none ↦ (failed 400 "Invalid JSON body", m)
      | some j ↦ elim (integer_field "participantId" j) [
        | none ↦ (failed 400 "Field 'participantId' is required", m)
        | some participant_id ↦ elim room [
          | none ↦ (thrown, m)
          | some room_id ↦
              let (result, after) = add_participant_to_room m room_id requester_id participant_id in
              (mutation_reply result, after)
        ]
      ]
    ]
  ]

  -- `DELETE /rooms/{id}/participants/{participantId}`
  unfoldable pub delete_room_participant :
      String → Option ℕ → Option ℕ → Reply (Unit {0}) × ChatManager
  delete_room_participant api_key room participant = elim (resolve_auth_participant m api_key) [
    | err message ↦ (failed 401 message, m)
    | ok requester_id ↦ elim room [
      | none ↦ (thrown, m)
      | some room_id ↦ elim participant [
        | none ↦ (thrown, m)
        | some participant_id ↦
            let (result, after) =
              remove_participant_from_room m room_id requester_id participant_id in
            (mutation_reply result, after)
      ]
    ]
  ]

  -- `POST /rooms/{id}/messages`
  unfoldable pub post_room_messages : ℕ → String → Option ℕ → String → Reply Message × ChatManager
  post_room_messages now api_key room body = elim (resolve_auth_participant m api_key) [
    | err message ↦ (failed 401 message, m)
    | ok requester_id ↦ elim (parse body) [
      | none ↦ (failed 400 "Invalid JSON body", m)
      | some j ↦ elim (string_field "type" j) [
        | none ↦ (failed 400 "Field 'type' is required", m)
        | some type ↦ elim room [
          | none ↦ (thrown, m)
          | some room_id ↦
              let text = text_or_empty (string_field "text" j) in
              let image_url = text_or_empty (string_field "imageUrl" j) in
              let (result, after) = create_message m now room_id requester_id type text image_url in
              (post_reply result, after)
        ]
      ]
    ]
  ]

module _ (m : ChatManager) where
  -- `GET /rooms/{id}/messages`
  unfoldable pub get_room_messages :
      String → Option ℕ → (since_id from_ts to_ts : Option String) → Reply (List Message)
  get_room_messages api_key room since_id from_ts to_ts =
      elim (resolve_auth_participant m api_key) [
        | err message ↦ failed 401 message
        | ok requester_id ↦ elim room [
          | none ↦ thrown
          | some room_id ↦ read_reply (
              get_messages m room_id requester_id (query_int64 since_id (pos 0))
                (query_int64 from_ts (pos 0)) (query_int64 to_ts (negsuc 0)))
        ]
      ]

  -- `GET /rooms/{id}/messages/poll` up to the wait: a reply, or `none` if it waits.
  unfoldable pub poll_room_messages :
      String → Option ℕ → (since_id from_ts : Option String) → Option (Reply (List Message))
  poll_room_messages api_key room since_id from_ts = elim (resolve_auth_participant m api_key) [
    | err message ↦ some (failed 401 message)
    | ok requester_id ↦ elim room [
      | none ↦ some thrown
      | some room_id ↦
          elim (start_poll m room_id requester_id (query_int64 since_id (pos 0))
            (query_int64 from_ts (pos 0))) [ none ↦ none | some result ↦ some (poll_reply result) ]
    ]
  ]

  -- And after it, in the manager as it then is.
  unfoldable pub polled_room_messages :
      ℕ → (since_id from_ts : Option String) → Option (Reply (List Message))
  polled_room_messages room_id since_id from_ts =
      elim (finish_poll m room_id (query_int64 since_id (pos 0)) (query_int64 from_ts (pos 0))) [
        | none ↦ none
        | some result ↦ some (poll_reply result)
      ]
