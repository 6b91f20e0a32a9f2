-- ===== src/Chat/Talk.antt =====
-- A talk of two over the server, in which one waits for the other, and the theorems of the server at it.
use architecture_course.Prelude.{
  false, ◌==◌, ◌&&◌, if◌then◌else◌, string_eq, nat_eq, String, List, Option, none, some, [], ◌∷◌,
  ◌≡◌, refl, All, has,
}
use architecture_course.Prelude.Int.{pos}
use architecture_course.Prelude.Map.{lookup, insert}
use architecture_course.Prelude.Http.{
  plain, Route, with_json, Method, get, post, HttpRequest, dispatch,
}
use architecture_course.Chat.Manager.{
  ChatManager, filter_messages, finish_poll, Message, new_chat, create_participant, create_room,
  create_message, start_poll, authenticate,
}
use architecture_course.Chat.Handlers.{
  post_participants, post_rooms, post_room_messages, polled_room_messages, poll_room_messages,
  resolve_auth_participant,
}
use architecture_course.Prelude.Decimal.Parsing.{parse_signed, take_sign, skip_spaces, read_digits}
use architecture_course.Chat.Query.{query_int64}
use architecture_course.Chat.Tests.{bodies}
use architecture_course.Chat.Server.{
  Call, serve_calls, Turn, room_routes, Waiting, with_origin, messages_json, serve, wake, path_id,
  timeout_of,
}
use architecture_course.Chat.Outside.{IsOutside, IsRefusal, serve-outside}

-- A match of the paths that the requests below have.
abbrev matches : String → String → Option (List String)
matches pattern path =
    if pattern == "/rooms/(\\d+)/messages" && path == "/rooms/1/messages"
    then some ("1" ∷ [])
    else if pattern == "/rooms/(\\d+)/messages/poll" && path == "/rooms/1/messages/poll"
    then some ("1" ∷ [])
    else if pattern == path
    then some []
    else none

abbrev request : Method → String → String → HttpRequest
request method path body = record {
  method = method;
  path = path;
  param = λ name. "";
  has_param = λ name. false;
  header = λ name. "a1";
  body = body;
}

abbrev make_ann : HttpRequest
make_ann = request post "/participants" "ann"

abbrev make_room : HttpRequest
make_room = request post "/rooms" "tea"

abbrev await : HttpRequest
await = request get "/rooms/1/messages/poll" ""

abbrev say : HttpRequest
say = request post "/rooms/1/messages" "hello"

-- Ann opens a room and waits for a message in it. Then she sends one.
abbrev call : HttpRequest → Call
call req = record { request = req; api_key = "a1"; now = 100 }

abbrev opened : ChatManager
opened = serve_calls bodies matches (call make_ann ∷ call make_room ∷ []) new_chat

abbrev said : ChatManager
said = serve_calls bodies matches (call say ∷ []) opened

abbrev ann_waits : Waiting
ann_waits = record { room_id = 1; since_id = none; from_ts = none; timeout = pos 25 }

abbrev hello : Message
hello = record {
  id = 1;
  room_id = 1;
  author_id = 1;
  type = "text";
  text = "hello";
  image_url = "";
  created_at_ms = 100;
}

-- What the wait ends with before the message, and after it.
hello_heard :
    (wake ann_waits opened ≡ some (with_origin (plain 204)))
    × (wake ann_waits said ≡ some (with_origin (with_json 200 (messages_json (hello ∷ [])))))
unfolding serve_calls serve dispatch poll_room_messages resolve_auth_participant authenticate lookup
    post_rooms post_participants post_room_messages create_participant insert new_chat create_room
    create_message path_id parse_signed take_sign skip_spaces read_digits start_poll has timeout_of
    query_int64 wake polled_room_messages finish_poll filter_messages
hello_heard = (refl, refl)

-- A caller without an account asks for a room, here and in a new chat with two participants.
abbrev ask : HttpRequest
ask = record say { header = λ name. "c3" }

abbrev pair : ChatManager
pair = (create_participant (create_participant new_chat "d4" "dan").1 "e5" "eve").1

abbrev trio : ChatManager
trio =
    (create_room (create_participant (create_participant new_chat "a1" "ann").1 "b2" "bob").1 "tea"
      1).1

outside : IsOutside "c3" trio pair
unfolding new_chat create_participant create_room insert lookup authenticate
outside = record { unknown = refl; unknown' = refl; next = refl }

serve-outside_example :
    All
      (λ (r : Route ChatManager Turn).
        (captured : List String) → IsRefusal trio (r.handler ask captured trio))
      (room_routes bodies "a1" 100)
    × ((serve bodies "a1" 100 matches ask trio).0 ≡ (serve bodies "a1" 100 matches ask pair).0)
    × ((serve bodies "a1" 100 matches ask trio).1.rooms ≡ trio.rooms)
serve-outside_example = serve-outside bodies "a1" 100 matches ask trio pair outside
