-- ===== src/Webhook/Listing.antt =====
-- What the server lists after any connections: the latest of the accepted posts.
use mathlib.Core.List.{append_assoc}
use architecture_course.Prelude.{
  subst, string_eq, ℕ, ◌+◌, ◌^◌, ◌<◌, min, String, Option, none, some, List, [], ◌∷◌, ◌++◌, Bool,
  true, false, ◌&&◌, ◌||◌, ◌==◌, ◌≡◌, refl, ap, ◌∙◌, subst, arith, inl, inr, if◌then◌else◌,
  is_empty, length, Bool-cases, length-append,
}
use architecture_course.Prelude.Int.{ℤ}
use architecture_course.Prelude.Ranges.{last_of, length-last_of}
use architecture_course.Webhook.Latest.{
  Post, numbered, IsLatest, store_kept, add-IsLatest, start-IsLatest, length-numbered,
}
use architecture_course.Webhook.Store.{EventStore, new_store}
use architecture_course.Webhook.Server.{
  Verb, Request, listing, is_get, is_post, value_or, make_json_response, store_payload,
  handle_request, do_session, serve,
}

post_ne_get : (v : Verb) → is_post v ≡ true → is_get v ≡ false
post_ne_get Verb.get h = cc
post_ne_get Verb.post h = refl
post_ne_get Verb.other_verb h = refl

module _ {ℓ} {P : Type ℓ} where
  -- A post to the hook with the secret, if one is set.
  abbrev pub is_authorised : String → Request P → Bool
  is_authorised secret req =
      is_post req.verb
      && req.target == "/webhooks/incoming"
      && (is_empty secret || value_or (req.find "X-Webhook-Secret") "" == secret)

  abbrev pub posted : Request P → ℤ → Option P → List (Post P)
  posted req now none = []
  posted req now (some payload) =
      record {
        event = value_or (req.find "X-Webhook-Event") "unknown";
        payload = payload;
        at = now;
      }
      ∷ []

  -- The posts of a connection that are accepted: none, or one with a body that is JSON.
  abbrev pub accepted_post : String → ℤ × Option (Request P) → List (Post P)
  accepted_post secret (now, none) = []
  accepted_post secret (now, some req) =
      if is_authorised secret req then posted req now req.parsed else []

  abbrev pub accepted : String → List (ℤ × Option (Request P)) → List (Post P)
  accepted secret [] = []
  accepted secret (connection ∷ connections) =
      accepted_post secret connection ++ accepted secret connections

  authorised_lem :
      (secret : String) (req : Request P) (now : ℤ) (store : EventStore P)
      → is_authorised secret req ≡ true
      → handle_request secret req now store ≡ store_payload req now store req.parsed
  unfolding handle_request
  authorised_lem secret req now store h = ground (arith, h, post_ne_get req.verb)

  refused_lem :
      (secret : String) (req : Request P) (now : ℤ) (store : EventStore P)
      → is_authorised secret req ≡ false
      → (handle_request secret req now store).1 ≡ store
  unfolding handle_request
  refused_lem secret req now store h = ground (arith, h)

  stored-IsLatest :
      (max_events : ℕ) (log : List (Post P)) (req : Request P) (now : ℤ) (store : EventStore P)
      (o : Option P)
      → length log + length (posted req now o) + 1 < 2 ^ 64
      → IsLatest max_events log store
      → IsLatest max_events (log ++ posted req now o) (store_payload req now store o).1
  stored-IsLatest max_events log req now store none small h = store_kept max_events log store h
  stored-IsLatest max_events log req now store (some payload) small h =
      (add-IsLatest max_events log
        (record {
          event = value_or (req.find "X-Webhook-Event") "unknown";
          payload = payload;
          at = now;
        })
        store (omega arith) h).0

  session-IsLatest :
      (secret : String) (max_events : ℕ) (log : List (Post P)) (now : ℤ) (o : Option (Request P))
      (store : EventStore P)
      → length log + length (accepted_post secret (now, o)) + 1 < 2 ^ 64
      → IsLatest max_events log store
      → IsLatest max_events
          (log ++ accepted_post secret (now, o))
          (do_session secret (now, o) store)
  session-IsLatest secret max_events log now none store small h = store_kept max_events log store h
  session-IsLatest secret max_events log now (some req) store small h =
      elim (Bool-cases (is_authorised secret req)) [
        | inl allowed ↦
            rw (allowed, do_session, authorised_lem secret req now store allowed)
              (stored-IsLatest max_events log req now store req.parsed (rw allowed at small) h)
        | inr refused ↦
            rw (refused, do_session, refused_lem secret req now store refused)
              (store_kept max_events log store h)
      ]

  serve-IsLatest :
      (secret : String) (max_events : ℕ) (connections : List (ℤ × Option (Request P)))
      (log : List (Post P)) (store : EventStore P)
      → length log + length (accepted secret connections) + 1 < 2 ^ 64
      → IsLatest max_events log store
      → IsLatest max_events (log ++ accepted secret connections) (serve secret connections store)
  unfolding serve
  serve-IsLatest secret max_events [] log store small h = store_kept max_events log store h
  serve-IsLatest secret max_events ((now, o) ∷ connections) log store small h =
      let here : List (Post P) = accepted_post secret (now, o) in
      let later : List (Post P) = accepted secret connections in
      let sizes : length (here ++ later) ≡ length here + length later = length-append here later in
      let so_far : length (log ++ here) ≡ length log + length here = length-append log here in
      subst
        (λ l. IsLatest max_events l (serve secret connections (do_session secret (now, o) store)))
        (append_assoc log here later)
        (serve-IsLatest secret max_events connections (log ++ here)
          (do_session secret (now, o) store) (omega (arith, sizes, so_far))
          (session-IsLatest secret max_events log now o store (omega (arith, sizes)) h))

  list_lem :
      (secret : String) (req : Request P) (now : ℤ) (store : EventStore P)
      → is_get req.verb ≡ true
      → req.target ≡ "/webhooks/events"
      → handle_request secret req now store
        ≡ (make_json_response 200 (listing (length store.events) store.events) req, store)
  unfolding handle_request
  list_lem secret req now store v t =
      let other : (req.target == "/health") ≡ false = rw t refl in
      let this : (req.target == "/webhooks/events") ≡ true = rw t refl in
      ground (arith, v, other, this)

  -- After any connections, as long as the ids do not wrap around, a request for the list is answered
  -- with the latest `max_events` of the accepted posts, or all of them, oldest first, and with their
  -- number. The accepted posts are those to the hook with the secret, if one is set, and a body that is
  -- JSON. Each one has its event name, or "unknown", its payload, the time at which it came, and its
  -- position among all accepted posts as the id. The list itself changes nothing.
  pub serve_listing :
      (secret : String) (max_events : ℕ) (connections : List (ℤ × Option (Request P)))
      (req : Request P) (now : ℤ)
      → length (accepted secret connections) + 1 < 2 ^ 64
      → is_get req.verb ≡ true
      → req.target ≡ "/webhooks/events"
      → let log = accepted secret connections in
        let store = serve secret connections (new_store max_events) in
        handle_request secret req now store ≡ (
          make_json_response 200
              (listing (min max_events (length log)) (last_of max_events (numbered 1 log)))
              req,
          store,
        )
  serve_listing secret max_events connections req now small v t =
      let log : List (Post P) = accepted secret connections in
      let latest =
        serve-IsLatest secret max_events connections [] (new_store max_events)
          (omega (arith, small)) (start-IsLatest max_events) in
      list_lem secret req now (serve secret connections (new_store max_events)) v t
      ∙ ap
          (λ es. (
            make_json_response 200 (listing (length es) es) req,
            serve secret connections (new_store max_events),
          ))
          latest.events
      ∙ ap
          (λ n. (
            make_json_response 200 (listing n (last_of max_events (numbered 1 log))) req,
            serve secret connections (new_store max_events),
          ))
          (length-last_of max_events (numbered 1 log) ∙ ap (min max_events) (length-numbered 1 log))
