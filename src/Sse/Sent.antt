-- ===== src/Sse/Sent.antt =====
-- What a client of the event stream receives, whichever write fails.
use mathlib.Core.Path.{ap₂}
use mathlib.Core.List.{append_assoc, append-nil}
use architecture_course.Prelude.{
  string_eq, ℕ, zero, suc, ◌+◌, String, some, List, [], ◌∷◌, ◌++◌, Bool, true, ◌&&◌, ◌==◌, ◌≡◌,
  refl, Option, none, map, length, nat_eq, false, sym, ◌∙◌, arith, inl, inr, Bool-cases,
  if◌then◌else◌,
}
use architecture_course.Prelude.Int.{ℤ}
use architecture_course.Sse.Stream.{
  Connection, serve, Socket, Request, accepted_socket, headers, retry, event_text, unless_failed,
  write, stream_events, stream_sse, write_simple_response, do_session,
}

module _ (fails : ℕ → Bool) (now_ms : ℕ → ℤ) (response_text : ℕ → String → String → String) where
  -- The texts before the first write that fails, when `attempts` writes were made before.
  abbrev pub until_failure : ℕ → List String → List String
  until_failure attempts [] = []
  until_failure attempts (text ∷ texts) =
      let rest = until_failure (attempts + 1) texts in if fails attempts then [] else text ∷ rest

  -- The events from `i` on.
  abbrev pub events_from : ℕ → ℕ → List String
  events_from zero i = []
  events_from (suc left) i = event_text i (now_ms i) ∷ events_from left (i + 1)

  -- The texts of the answer to a request, if every write succeeds.
  abbrev pub document : Request → List String
  document req =
      if req.is_get && req.target == "/health"
      then response_text 200 "application/json" "{\"status\":\"ok\"}" ∷ []
      else if req.is_get && req.target == "/events"
      then headers ∷ retry ∷ events_from 10 1
      else response_text 404 "application/json" "{\"error\":\"route not found\"}" ∷ []

  -- A write that fails ends the texts; one that succeeds goes on with the next.
  write_lem :
      (text : String) (texts : List String) (socket : Socket) (rest : Socket → Bool × Socket)
      → ((s : Socket) → (rest s).1.sent ≡ s.sent ++ until_failure s.attempts texts)
      → (unless_failed (write fails now_ms response_text text socket) rest).1.sent
        ≡ socket.sent ++ until_failure socket.attempts (text ∷ texts)
  unfolding write
  write_lem text texts socket rest h = elim (Bool-cases (fails socket.attempts)) [
    | inl broken ↦ rw broken (sym (append-nil socket.sent))
    | inr fine ↦ rw fine (
        h (record socket { sent = socket.sent ++ (text ∷ []); attempts = socket.attempts + 1 })
        ∙ append_assoc socket.sent (text ∷ []) (until_failure (socket.attempts + 1) texts))
  ]

  stream_events_lem :
      (left i : ℕ) (socket : Socket)
      → (stream_events fails now_ms response_text left i socket).1.sent
        ≡ socket.sent ++ until_failure socket.attempts (events_from left i)
  unfolding stream_events
  stream_events_lem zero i socket = sym (append-nil socket.sent)
  stream_events_lem (suc left) i socket =
      write_lem (event_text i (now_ms i)) (events_from left (i + 1)) socket
        (stream_events fails now_ms response_text left (i + 1)) (stream_events_lem left (i + 1))

  stream_sse_lem :
      (socket : Socket)
      → (stream_sse fails now_ms response_text socket).1.sent
        ≡ socket.sent ++ until_failure socket.attempts (headers ∷ retry ∷ events_from 10 1)
  unfolding stream_sse
  stream_sse_lem socket =
      write_lem headers (retry ∷ events_from 10 1) socket
        (λ (s : Socket).
          unless_failed (write fails now_ms response_text retry s)
            (stream_events fails now_ms response_text 10 1))
        (λ s.
          write_lem retry (events_from 10 1) s (stream_events fails now_ms response_text 10 1)
            (stream_events_lem 10 1))

  simple_lem :
      (status : ℕ) (content_type body : String) (socket : Socket)
      → (write_simple_response fails now_ms response_text status content_type body socket).1.sent
        ≡ socket.sent ++ until_failure socket.attempts (response_text status content_type body ∷ [])
  unfolding write_simple_response write
  simple_lem status content_type body socket = elim (Bool-cases (fails socket.attempts)) [
    | inl broken ↦ rw broken (sym (append-nil socket.sent))
    | inr fine ↦ rw fine refl
  ]

  -- A connection whose request can be read, and one whose request cannot.
  do_session-sent :
      (req : Request)
      → let socket = do_session fails now_ms response_text (some req) accepted_socket in
        (socket.sent ≡ until_failure 0 (document req)) × (socket.shut_down ≡ true)
  unfolding do_session
  do_session-sent req = (grind (arith, simple_lem, stream_sse_lem), refl)

  -- What a connection receives, and whether it is shut down.
  abbrev pub received : Option Request → List String × Bool
  received none = ([], false)
  received (some req) = (until_failure 0 (document req), true)

  session_lem :
      (request : Option Request)
      → let socket = do_session fails now_ms response_text request accepted_socket in
        ◌≡◌ {A = List String × Bool} (socket.sent, socket.shut_down) (received request)
  unfolding do_session
  session_lem none = refl
  session_lem (some req) = let (sent, shut) = do_session-sent req in ap₂ (λ a b. (a, b)) sent shut

-- The connections before an `accept` that throws, and the status of `main` then.
abbrev pub accepted : List (Option Connection) → List Connection
accepted [] = []
accepted (none ∷ connections) = []
accepted (some c ∷ connections) = c ∷ accepted connections

abbrev pub outcome_of : Socket → List String × Bool
outcome_of socket = (socket.sent, socket.shut_down)

module _ (response_text : ℕ → String → String → String) where
  abbrev pub received_by : Connection → List String × Bool
  received_by c = received c.fails c.now_ms response_text c.request

  -- The server serves its connections in their order until an `accept` throws, and then exits with
  -- status 1. A connection whose request can be read is sent the texts of its answer in order, up to the
  -- first write that fails and nothing after it, and is shut down in every case; the answer to the event
  -- stream is the headers, the time to retry and the events 1 to 10. A connection whose request cannot be
  -- read is sent nothing.
  pub serve-sent :
      (connections : List (Option Connection))
      → (map outcome_of (serve response_text connections).0
          ≡ map received_by (accepted connections))
        × ((serve response_text connections).1
            ≡ (if length (accepted connections) == length connections then none else some 1))
  unfolding serve
  serve-sent [] = (refl, refl)
  serve-sent (none ∷ connections) = (refl, ground arith)
  serve-sent (some c ∷ connections) =
      let (sent, status) = serve-sent connections in
      (ap₂ ◌∷◌ (session_lem c.fails c.now_ms response_text c.request) sent, ground (arith, status))
