-- ===== src/Webhook/Tests.antt =====
-- A server with room for two events and the secret "dev-secret".
use architecture_course.Prelude.{
  string_eq, ℕ, String, Option, none, some, List, [], ◌∷◌, true, false, ◌==◌, ◌≡◌, refl, min,
  length, if◌then◌else◌, arith,
}
use architecture_course.Prelude.Int.{ℤ, pos}
use architecture_course.Prelude.Ranges.{last_of}
use architecture_course.Webhook.Store.{StoredEvent, new_store, trim, add}
use architecture_course.Webhook.Server.{
  Verb, Request, listing, make_json_response, handle_request, serve,
}
use architecture_course.Webhook.Latest.{numbered}
use architecture_course.Webhook.Listing.{accepted, serve_listing}

abbrev headers : String → String → String → Option String
headers secret event name =
    if name == "X-Webhook-Secret"
    then some secret
    else if name == "X-Webhook-Event"
    then some event
    else none

abbrev hook : String → Option String → Request String
hook secret parsed = record {
  verb = Verb.post;
  target = "/webhooks/incoming";
  find = headers secret "push";
  parsed = parsed;
  version = 11;
  keep_alive = false;
}

abbrev list_request : Request String
list_request = record {
  verb = Verb.get;
  target = "/webhooks/events";
  find = λ name. none;
  parsed = none;
  version = 11;
  keep_alive = true;
}

abbrev connections : List (ℤ × Option (Request String))
connections =
    (pos 10, some (hook "dev-secret" (some "first")))
    ∷ (pos 20, some (hook "guess" (some "forged")))
    ∷ (pos 30, none)
    ∷ (pos 40, some (hook "dev-secret" none))
    ∷ (pos 50, some (hook "dev-secret" (some "second")))
    ∷ (pos 60, some (hook "dev-secret" (some "third")))
    ∷ []

abbrev event : ℕ → String → ℤ → StoredEvent String
event id payload now = record { id = id; event = "push"; payload = payload; received_at_ms = now }

two_latest :
    (serve "dev-secret" connections (new_store 2)).events
    ≡ event 2 "second" (pos 50) ∷ event 3 "third" (pos 60) ∷ []
unfolding serve new_store handle_request add trim
two_latest = refl

serve_listing_example :
    handle_request "dev-secret" list_request (pos 70) (serve "dev-secret" connections (new_store 2))
    ≡ (
      make_json_response 200
          (listing
            (min 2 (length (accepted "dev-secret" connections)))
            (last_of 2 (numbered 1 (accepted "dev-secret" connections))))
          list_request,
      serve "dev-secret" connections (new_store 2),
    )
serve_listing_example =
    serve_listing "dev-secret" 2 connections list_request (pos 70) (omega arith) refl refl
