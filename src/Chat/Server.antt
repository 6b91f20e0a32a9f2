-- ===== src/Chat/Server.antt =====
-- The server of main.cpp: the JSON of the responses, the routes and the CORS headers. A request for new
-- messages may wait; the others are answered at once.
use architecture_course.Prelude.{
  ltb, ℕ, ◌-◌, ◌^◌, ◌%◌, String, Option, none, some, List, [], ◌∷◌, ◌++◌, if◌then◌else◌, Reply,
}
use architecture_course.Prelude.Int.{ℤ, pos, negsuc, ltb_ℤ}
use architecture_course.Prelude.Decimal.Parsing.{parse_signed}
use architecture_course.Prelude.Json.{Json, text, integer, object, array, braced, pushed}
use architecture_course.Prelude.Http.{
  get, post, delete, options, HttpRequest, HttpResponse, Route, route, plain, with_json, answered,
  capture, dispatch,
}
use architecture_course.Chat.Manager.{Participant, Message, ChatManager}
use architecture_course.Chat.Query.{int64_bound, query_int64}
use architecture_course.Chat.Handlers.{
  Bodies, post_participants, post_rooms, post_room_participants, delete_room_participant,
  post_room_messages, get_room_messages, poll_room_messages, polled_room_messages,
}

unfoldable pub message_to_json : Message → Json ℤ
message_to_json message = object (
    braced (
      ("id", integer message.id)
      ∷ ("roomId", integer message.room_id)
      ∷ ("authorId", integer message.author_id)
      ∷ ("type", text message.type)
      ∷ ("text", text message.text)
      ∷ ("imageUrl", text message.image_url)
      ∷ ("createdAtMs", integer message.created_at_ms)
      ∷ []))

abbrev pub participant_json : Participant → Json ℤ
participant_json participant = object (
    braced (
      ("id", integer participant.id)
      ∷ ("name", text participant.name)
      ∷ ("apiKey", text participant.api_key)
      ∷ []))

abbrev pub room_json : ℕ × String → Json ℤ
room_json (id, name) = object (braced (("id", integer id) ∷ ("name", text name) ∷ []))

-- An empty list comes from a poll without messages, which is answered with 204 and no body, or from
-- `GET /rooms/{id}/messages`.
abbrev pub messages_json : List Message → Json ℤ
messages_json messages = array (pushed message_to_json messages)

abbrev pub polled_json : List Message → Option (Json ℤ)
polled_json [] = none
polled_json (message ∷ messages) = some (messages_json (message ∷ messages))

unfoldable pub api_document : Json ℤ
api_document = object (
    braced (
      ("name", text "Long Polling Chat API")
      ∷ ("version", text "1.0.0")
      ∷ ("auth", text "X-API-Key header")
      ∷ (
        "endpoints",
        object (
            braced (
              ("POST /participants", text "Create participant and API key")
              ∷ ("POST /rooms", text "Create room")
              ∷ ("POST /rooms/{id}/participants", text "Add participant to room")
              ∷ (
                "DELETE /rooms/{id}/participants/{participantId}",
                text "Remove participant from room",
              )
              ∷ ("POST /rooms/{id}/messages", text "Send message to room")
              ∷ ("GET /rooms/{id}/messages", text "Get messages with time filters")
              ∷ ("GET /rooms/{id}/messages/poll", text "Long polling for new messages")
              ∷ ("GET /health", text "Health check")
              ∷ [])),
      )
      ∷ []))

-- A request that waits: what it asks for, and for how many seconds.
pub record Waiting : Type 0 where
  pub room_id : ℕ
  pub since_id : Option String
  pub from_ts : Option String
  pub timeout : ℤ

pub data Turn : Type 0 where
  responds : HttpResponse ℤ → Turn
  waits : Waiting → Turn

-- `std::stoll(req.matches[n].str())`, as a bit pattern; `none` is an exception.
abbrev pub bits_of : ℤ → ℕ
bits_of (pos n) = n
bits_of (negsuc n) = 2 ^ 64 - 1 - n

unfoldable pub path_id : ℕ → List String → Option ℕ
path_id n captured = elim (parse_signed int64_bound (capture n captured)) [
  | none ↦ none
  | some (z, rest) ↦ some (bits_of z)
]

-- A query parameter, if it is there.
abbrev pub query : HttpRequest → String → Option String
query req name = if req.has_param name then some (req.param name) else none

-- `static_cast<int>` of an `int64_t`
abbrev pub int_of : ℕ → ℤ
int_of bits = if ltb bits (2 ^ 31) then pos bits else negsuc (2 ^ 32 - 1 - bits)

abbrev pub narrow : ℤ → ℤ
narrow (pos n) = int_of (n % 2 ^ 32)
narrow (negsuc n) = int_of (2 ^ 32 - 1 - n % 2 ^ 32)

abbrev pub timeout_within : ℤ → ℤ
timeout_within timeout =
    let raised = if ltb_ℤ timeout (pos 1) then pos 1 else timeout in
    if ltb_ℤ (pos 60) raised then pos 60 else raised

-- The seconds of a poll.
unfoldable pub timeout_of : HttpRequest → ℤ
timeout_of req = timeout_within (narrow (query_int64 (query req "timeout") (pos 25)))

abbrev pub no_content : Unit {0} → Option (Json ℤ)
no_content u = none

abbrev pub changing {ℓ} :
    {A : Type ℓ} → (A → Option (Json ℤ)) → Reply A × ChatManager → Turn × ChatManager
changing content (reply, m) = (responds (answered content reply), m)

abbrev pub reading : HttpResponse ℤ → ChatManager → Turn × ChatManager
reading res m = (responds res, m)

-- The poll of a request: `none` is a wait.
abbrev pub turn_of : Waiting → Option (Reply (List Message)) → Turn
turn_of waiting (some reply) = responds (answered polled_json reply)
turn_of waiting none = waits waiting

abbrev pub cors_headers : List (String × String)
cors_headers =
    ("Access-Control-Allow-Origin", "*")
    ∷ ("Access-Control-Allow-Methods", "GET, POST, PUT, DELETE, OPTIONS")
    ∷ ("Access-Control-Allow-Headers", "Content-Type, X-API-Key")
    ∷ []

-- The header of `set_pre_routing_handler`
abbrev pub with_origin : HttpResponse ℤ → HttpResponse ℤ
with_origin res = record res { headers = ("Access-Control-Allow-Origin", "*") ∷ res.headers }

abbrev pub pre_routing : Turn × ChatManager → Turn × ChatManager
pre_routing (responds res, m) = (responds (with_origin res), m)
pre_routing (waits waiting, m) = (waits waiting, m)

-- The poll of a request whose room id is read.
abbrev pub poll_turn : HttpRequest → Option ℕ → ChatManager → Turn × ChatManager
poll_turn req room m =
    let waiting : Waiting = record {
      room_id = elim room [ none ↦ 0 | some id ↦ id ];
      since_id = query req "sinceId";
      from_ts = query req "fromTs";
      timeout = timeout_of req;
    } in
    (
      turn_of waiting
          (poll_room_messages m (req.header "X-API-Key") room waiting.since_id waiting.from_ts),
      m,
    )

-- `api_key` is the key that will be drawn, `now` the clock.
module _ {ℓ} {J : Type ℓ} (bodies : Bodies J) (api_key : String) (now : ℕ) where
  abbrev pub open_routes : List (Route ChatManager Turn)
  open_routes =
      route options ".*"
        (λ req captured m. reading (record (plain 204) { headers = cors_headers }) m)
      ∷ route get "/" (λ req captured m. reading (with_json 200 api_document) m)
      ∷ route get "/health" (λ req captured m.
        reading (with_json 200 (object (braced (("status", text "ok") ∷ [])))) m)
      ∷ route post "/participants" (λ req captured m.
        changing (λ p. some (participant_json p)) (post_participants bodies m api_key req.body))
      ∷ []

  abbrev pub room_routes : List (Route ChatManager Turn)
  room_routes =
      route post "/rooms" (λ req captured m.
        changing (λ r. some (room_json r)) (post_rooms bodies m (req.header "X-API-Key") req.body))
      ∷ route post "/rooms/(\\d+)/participants" (λ req captured m.
        changing no_content
          (post_room_participants bodies m (req.header "X-API-Key") (path_id 0 captured) req.body))
      ∷ route delete "/rooms/(\\d+)/participants/(\\d+)" (λ req captured m. changing no_content (
          delete_room_participant bodies m (req.header "X-API-Key") (path_id 0 captured)
            (path_id 1 captured)))
      ∷ route post "/rooms/(\\d+)/messages" (λ req captured m.
        changing (λ message. some (message_to_json message))
          (post_room_messages bodies m now (req.header "X-API-Key") (path_id 0 captured) req.body))
      ∷ route get "/rooms/(\\d+)/messages" (λ req captured m.
        reading
          (answered (λ messages. some (messages_json messages))
            (get_room_messages m (req.header "X-API-Key") (path_id 0 captured) (query req "sinceId")
              (query req "fromTs") (query req "toTs")))
          m)
      ∷ route get "/rooms/(\\d+)/messages/poll"
          (λ req captured m. poll_turn req (path_id 0 captured) m)
      ∷ []

  unfoldable pub serve :
      (matches : String → String → Option (List String))
      → HttpRequest
      → ChatManager
      → Turn × ChatManager
  serve matches req m =
      pre_routing (dispatch matches (responds (plain 404)) (open_routes ++ room_routes) req m)

-- A request, with the key that is drawn and the clock when it comes.
pub record Call : Type 0 where
  pub request : HttpRequest
  pub api_key : String
  pub now : ℕ

-- Requests one after the other, as the last chat.
unfoldable pub serve_calls {ℓ} :
    {J : Type ℓ}
    → Bodies J
    → (String → String → Option (List String))
    → List Call
    → ChatManager
    → ChatManager
serve_calls bodies matches [] m = m
serve_calls bodies matches (c ∷ calls) m =
    serve_calls bodies matches calls (serve bodies c.api_key c.now matches c.request m).1

-- The response to a poll that waited, in the manager as it then is.
unfoldable pub wake : Waiting → ChatManager → Option (HttpResponse ℤ)
wake waiting m = elim (polled_room_messages m waiting.room_id waiting.since_id waiting.from_ts) [
  | none ↦ none
  | some reply ↦ some (with_origin (answered polled_json reply))
]
