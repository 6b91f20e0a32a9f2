-- ===== src/Sse/Tests.antt =====
-- A stream whose connection breaks after the first event.
use architecture_course.Prelude.{
  ℕ, String, some, none, Option, List, map, length, nat_eq, ◌==◌, if◌then◌else◌, [], ◌∷◌, Bool,
  true, ◌≡◌, refl, leb,
}
use architecture_course.Prelude.Int.{ℤ, pos}
use architecture_course.Prelude.Decimal.{to_string}
use architecture_course.Prelude.Decimal.Signed.{signed_to_string}
use architecture_course.Sse.Stream.{
  Connection, serve, Request, accepted_socket, headers, retry, event_text, write, stream_events,
  stream_sse, do_session,
}
use architecture_course.Sse.Sent.{outcome_of, received_by, accepted, serve-sent}

abbrev breaks : ℕ → Bool
breaks attempts = leb 3 attempts

abbrev times : ℕ → ℤ
times i = pos 1700

abbrev texts : ℕ → String → String → String
texts status content_type body = body

abbrev events : Request
events = record { is_get = true; target = "/events" }

first_event :
    (do_session breaks times texts (some events) accepted_socket).sent
    ≡ headers ∷ retry ∷ "event: tick\nid: 1\ndata: {\"counter\":1,\"timestampMs\":1700}\n\n" ∷ []
unfolding do_session stream_sse stream_events write event_text to_string signed_to_string
first_event = refl

-- The broken stream, a request that cannot be read, and an `accept` that throws.
abbrev connections : List (Option Connection)
connections =
    some (record { fails = breaks; now_ms = times; request = some events })
    ∷ some (record { fails = breaks; now_ms = times; request = none })
    ∷ none
    ∷ some (record { fails = breaks; now_ms = times; request = some events })
    ∷ []

serve-sent_example :
    (map outcome_of (serve texts connections).0 ≡ map (received_by texts) (accepted connections))
    × ((serve texts connections).1
        ≡ (if length (accepted connections) == length connections then none else some 1))
serve-sent_example = serve-sent texts connections

exits : (serve texts connections).1 ≡ some 1
unfolding serve
exits = refl
