-- ===== src/Webhook/Server.antt =====
-- `HandleRequest`, `DoSession` and the loop of `main`. What a request holds is a record: its headers are
-- found by the HTTP library, and its body is parsed by the JSON library, with `none` for an exception.
use architecture_course.Prelude.{
  string_eq, ℕ, String, Option, none, some, List, [], ◌∷◌, Bool, not, ◌&&◌, ◌==◌, if◌then◌else◌,
  is_empty, length,
}
use architecture_course.Prelude.Int.{ℤ}
use architecture_course.Webhook.Store.{StoredEvent, EventStore, add, list}

pub data Verb : Type 0 where
  get post other_verb : Verb

pub record Request {ℓ} (P : Type ℓ) : Type ℓ where
  pub verb : Verb
  pub target : String
  pub find : String → Option String
  pub parsed : Option P
  pub version : ℕ
  pub keep_alive : Bool

-- The JSON bodies of the responses.
pub data Body {ℓ} (P : Type ℓ) : Type ℓ where
  health : Body P
  listing : ℕ → List (StoredEvent P) → Body P
  received : ℕ → Body P
  refused : String → Body P

pub record Response {ℓ} (P : Type ℓ) : Type ℓ where
  pub status : ℕ
  pub body : Body P
  pub version : ℕ
  pub keep_alive : Bool

abbrev pub is_get : Verb → Bool
is_get Verb.get = Bool.true
is_get other = Bool.false

abbrev pub is_post : Verb → Bool
is_post Verb.post = Bool.true
is_post other = Bool.false

abbrev pub value_or : Option String → String → String
value_or none default = default
value_or (some s) default = s

module _ {ℓ} {P : Type ℓ} where
  abbrev pub make_json_response : ℕ → Body P → Request P → Response P
  make_json_response status body req = record {
    status = status;
    body = body;
    version = req.version;
    keep_alive = req.keep_alive;
  }

  -- The part of `HandleRequest` after the secret was checked.
  abbrev pub store_payload : Request P → ℤ → EventStore P → Option P → Response P × EventStore P
  store_payload req now store none =
      (make_json_response 400 (refused "body must be valid JSON") req, store)
  store_payload req now store (some payload) =
      let event_name = value_or (req.find "X-Webhook-Event") "unknown" in
      let (id, store') = add event_name payload now store in
      (make_json_response 202 (received id) req, store')

  unfoldable pub handle_request : String → Request P → ℤ → EventStore P → Response P × EventStore P
  handle_request expected_secret req now store =
      if is_get req.verb && req.target == "/health"
      then (make_json_response 200 health req, store)
      else if is_get req.verb && req.target == "/webhooks/events"
      then (make_json_response 200 (listing (length (list store)) (list store)) req, store)
      else if is_post req.verb && req.target == "/webhooks/incoming"
      then (if not (is_empty expected_secret)
            && not (value_or (req.find "X-Webhook-Secret") "" == expected_secret)
          then (make_json_response 401 (refused "invalid webhook secret") req, store)
          else store_payload req now store req.parsed)
      else (make_json_response 404 (refused "route not found") req, store)

  -- A connection: `none` where the request cannot be read.
  abbrev pub do_session : String → ℤ × Option (Request P) → EventStore P → EventStore P
  do_session expected_secret (now, none) store = store
  do_session expected_secret (now, some req) store =
      (handle_request expected_secret req now store).1

  -- The loop of `main`, for the connections that it accepts.
  unfoldable pub serve : String → List (ℤ × Option (Request P)) → EventStore P → EventStore P
  serve expected_secret [] store = store
  serve expected_secret (connection ∷ connections) store =
      serve expected_secret connections (do_session expected_secret connection store)
