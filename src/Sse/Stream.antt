-- ===== src/Sse/Stream.antt =====
-- `StreamSse`, `WriteSimpleResponse` and `DoSession`. A socket is the texts that were written to it and
-- whether each later write fails; a response of the HTTP library is written as one text, which is left
-- to the library. `NowMs` is a time for each round of the loop.
use Prim.Native.String.{◌++◌ as str_append}
use architecture_course.Prelude.{
  string_eq, ℕ, zero, suc, ◌+◌, String, Option, none, some, List, [], ◌∷◌, ◌++◌, Bool, true, false,
  ◌&&◌, ◌==◌, if◌then◌else◌,
}
use architecture_course.Prelude.Int.{ℤ}
use architecture_course.Prelude.Decimal.{to_string}
use architecture_course.Prelude.Decimal.Signed.{signed_to_string}

pub record Socket : Type 0 where
  pub sent : List String
  pub attempts : ℕ
  pub shut_down : Bool

pub record Request : Type 0 where
  pub is_get : Bool
  pub target : String

abbrev pub accepted_socket : Socket
accepted_socket = record { sent = []; attempts = 0; shut_down = false }

abbrev pub headers : String
headers =
    "HTTP/1.1 200 OK\r\nContent-Type: text/event-stream\r\nCache-Control: no-cache\r\nConnection: keep-alive\r\nX-Accel-Buffering: no\r\n\r\n"

abbrev pub retry : String
retry = "retry: 3000\n\n"

-- The text of the event `i`, sent at the time `ms`.
unfoldable pub event_text : ℕ → ℤ → String
event_text i ms = str_append "event: tick\nid: " (
    str_append (to_string i) (
      str_append "\ndata: {\"counter\":" (
        str_append (to_string i)
          (str_append ",\"timestampMs\":" (str_append (signed_to_string ms) "}\n\n")))))

-- `if (ec) return;`, and what comes after it
abbrev pub unless_failed : Bool × Socket → (Socket → Bool × Socket) → Bool × Socket
unless_failed (true, socket) rest = (true, socket)
unless_failed (false, socket) rest = rest socket

module _ (fails : ℕ → Bool) (now_ms : ℕ → ℤ) (response_text : ℕ → String → String → String) where
  -- `net::write` and `http::write`: whether the write failed, which is the error code `ec`.
  unfoldable pub write : String → Socket → Bool × Socket
  write text socket =
      let tried = record socket { attempts = socket.attempts + 1 } in
      if fails socket.attempts
      then (true, tried)
      else (false, record tried { sent = socket.sent ++ (text ∷ []) })

  -- The loop of `StreamSse`, with `left` rounds to go.
  unfoldable pub stream_events : ℕ → ℕ → Socket → Bool × Socket
  stream_events zero i socket = (false, socket)
  stream_events (suc left) i socket =
      unless_failed (write (event_text i (now_ms i)) socket) (stream_events left (i + 1))

  unfoldable pub stream_sse : Socket → Bool × Socket
  unfolding stream_events
  stream_sse socket =
      unless_failed (write headers socket)
        (λ (s : Socket). unless_failed (write retry s) (stream_events 10 1))

  -- The version of the request and its keep-alive, which only the text of the response shows, are left
  -- out: the text is the HTTP library's.
  unfoldable pub write_simple_response : ℕ → String → String → Socket → Bool × Socket
  unfolding write
  write_simple_response status content_type body socket =
      write (response_text status content_type body) socket

  -- `none` is a request that cannot be read.
  unfoldable pub do_session : Option Request → Socket → Socket
  do_session none socket = socket
  do_session (some req) socket =
      let (ec, socket') =
        if req.is_get && req.target == "/health"
        then write_simple_response 200 "application/json" "{\"status\":\"ok\"}" socket
        else if req.is_get && req.target == "/events"
        then stream_sse socket
        else write_simple_response 404 "application/json" "{\"error\":\"route not found\"}"
            socket in
      record socket' { shut_down = true }

-- A connection that is accepted: which of its writes fail, the times, and the request.
pub record Connection : Type 0 where
  pub fails : ℕ → Bool
  pub now_ms : ℕ → ℤ
  pub request : Option Request

module _ (response_text : ℕ → String → String → String) where
  -- The loop of `main`: the sockets of its connections, and the status if it exits. `none` is an `accept`
  -- that throws.
  unfoldable pub serve : List (Option Connection) → List Socket × Option ℕ
  serve [] = ([], none)
  serve (none ∷ connections) = ([], some 1)
  serve (some c ∷ connections) =
      let (sockets, status) = serve connections in
      (do_session c.fails c.now_ms response_text c.request accepted_socket ∷ sockets, status)

  -- `main`, where the port is opened or the acceptor throws.
  unfoldable pub main : Bool → List (Option Connection) → List Socket × Option ℕ
  unfolding serve
  main opened connections = if opened then serve connections else ([], some 1)
