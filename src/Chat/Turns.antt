-- ===== src/Chat/Turns.antt =====
-- What serving a request makes of the chat, and how a poll comes to wait.
use architecture_course.Prelude.{
  nat_eq, ℕ, String, Option, none, some, List, ◌++◌, true, ◌≡◌, refl, arith, All, All-append, subst,
  Reply,
}
use architecture_course.Prelude.Int.{ℤ, pos, negsuc, ◌≤ℤ◌}
use architecture_course.Prelude.Map.{contains}
use architecture_course.Prelude.Http.{
  HttpRequest, HttpResponse, Route, plain, same_method, dispatch_keeps,
}
use architecture_course.Chat.Manager.{Message, ChatManager}
use architecture_course.Chat.Query.{query_int64}
use architecture_course.Chat.Reachable.{Reachable}
use architecture_course.Chat.Handlers.{Bodies}
use architecture_course.Chat.Serving.{
  Reachable-IsClosed, post_participants_keeps, post_rooms_keeps, post_room_participants_keeps,
  delete_room_participant_keeps, post_room_messages_keeps,
}
use architecture_course.Chat.Polling.{Grows, Grows-IsClosed, poll_waits}
use architecture_course.Chat.Server.{
  narrow, Waiting, Turn, responds, waits, query, timeout_of, timeout_within, path_id, turn_of,
  pre_routing, poll_turn, open_routes, room_routes, serve,
}

-- A wait of a request that can be answered: its room is there, it has the bounds of the request, and it
-- ends after 1 to 60 seconds.
pub record IsTimely (req : HttpRequest) (m : ChatManager) (waiting : Waiting) : Type 0 where
  pub since : waiting.since_id ≡ query req "sinceId"
  pub from : waiting.from_ts ≡ query req "fromTs"
  pub room : contains waiting.room_id m.rooms ≡ true
  pub least : pos 1 ≤ℤ waiting.timeout
  pub most : waiting.timeout ≤ℤ pos 60

timeout_within_lem : (z : ℤ) → (pos 1 ≤ℤ timeout_within z) × (timeout_within z ≤ℤ pos 60)
timeout_within_lem (pos n) = ground arith
timeout_within_lem (negsuc n) = ground arith

timeout_of_lem : (req : HttpRequest) → (pos 1 ≤ℤ timeout_of req) × (timeout_of req ≤ℤ pos 60)
unfolding timeout_of
timeout_of_lem req = timeout_within_lem (narrow (query_int64 (query req "timeout") (pos 25)))

-- What serving a request makes of the chat.
pub record IsTurn (req : HttpRequest) (m : ChatManager) (r : Turn × ChatManager) : Type 0 where
  pub reachable : Reachable m → Reachable r.1
  pub grows : Grows m r.1
  pub waiting : (w : Waiting) → r.0 ≡ waits w → IsTimely req r.1 w

module _ (req : HttpRequest) (m : ChatManager) where
  reading-IsTurn : (res : HttpResponse ℤ) → IsTurn req m (responds res, m)
  reading-IsTurn res = record { reachable = λ h. h; grows = λ k h. h; waiting = λ w e. cc }

  changing-IsTurn :
      (res : HttpResponse ℤ) (after : ChatManager)
      → (Reachable m → Reachable after)
      → Grows m after
      → IsTurn req m (responds res, after)
  changing-IsTurn res after h k = record { reachable = h; grows = k; waiting = λ w e. cc }

  pre_routing-IsTurn : (r : Turn × ChatManager) → IsTurn req m r → IsTurn req m (pre_routing r)
  pre_routing-IsTurn (responds res, after) h = record {
    reachable = h.reachable;
    grows = h.grows;
    waiting = λ w e. cc;
  }
  pre_routing-IsTurn (waits waiting, after) h = h

  turn_of-IsTurn :
      (w : Waiting) (o : Option (Reply (List Message)))
      → (o ≡ none → IsTimely req m w)
      → IsTurn req m (turn_of w o, m)
  turn_of-IsTurn w (some reply) h = reading-IsTurn _
  turn_of-IsTurn w none h = record {
    reachable = λ r. r;
    grows = λ k r. r;
    waiting = λ v e. let same : w ≡ v = cc in subst (IsTimely req m) same (h refl);
  }

  poll_turn-IsTurn : (room : Option ℕ) → IsTurn req m (poll_turn req room m)
  poll_turn-IsTurn none =
      turn_of-IsTurn _ _
        λ e. let (id, f, known) = poll_waits m _ none _ _ e in absurd (ground (arith, f))
  poll_turn-IsTurn (some room_id) = turn_of-IsTurn _ _ λ e.
      let (id, f, known) = poll_waits m _ (some room_id) _ _ e in
      let same : id ≡ room_id = cc in
      record {
        since = refl;
        from = refl;
        room = subst (λ k. contains k m.rooms ≡ true) same known;
        least = (timeout_of_lem req).0;
        most = (timeout_of_lem req).1;
      }

module _ {ℓ} {J : Type ℓ} (bodies : Bodies J) (api_key : String) (now : ℕ) (m : ChatManager)
    (req : HttpRequest) where
  abbrev IsTurning : Route ChatManager Turn → Type 0
  IsTurning r =
      (captured : List String)
      → same_method r.method req.method ≡ true
      → IsTurn req m (r.handler req captured m)

  open_routes-IsTurning : All IsTurning (open_routes bodies api_key now)
  open_routes-IsTurning = (
    λ c e. reading-IsTurn req m _,
    (
      λ c e. reading-IsTurn req m _,
      (
        λ c e. reading-IsTurn req m _,
        (
          λ c e.
              changing-IsTurn req m _ _
                (λ r.
                  post_participants_keeps bodies m Reachable (Reachable-IsClosed m r) api_key
                    req.body)
                (post_participants_keeps bodies m (Grows m) (Grows-IsClosed m) api_key req.body),
          tt,
        ),
      ),
    ),
  )

  room_routes-IsTurning : All IsTurning (room_routes bodies api_key now)
  room_routes-IsTurning =
      let key = req.header "X-API-Key" in
      (
        λ c e.
            changing-IsTurn req m _ _
              (λ r. post_rooms_keeps bodies m Reachable (Reachable-IsClosed m r) key req.body)
              (post_rooms_keeps bodies m (Grows m) (Grows-IsClosed m) key req.body),
        (
          λ c e.
              changing-IsTurn req m _ _
                (λ r.
                  post_room_participants_keeps bodies m Reachable (Reachable-IsClosed m r) key
                    (path_id 0 c) req.body)
                (post_room_participants_keeps bodies m (Grows m) (Grows-IsClosed m) key
                  (path_id 0 c) req.body),
          (
            λ c e.
                changing-IsTurn req m _ _
                  (λ r.
                    delete_room_participant_keeps bodies m Reachable (Reachable-IsClosed m r) key
                      (path_id 0 c) (path_id 1 c))
                  (delete_room_participant_keeps bodies m (Grows m) (Grows-IsClosed m) key
                    (path_id 0 c) (path_id 1 c)),
            (
              λ c e.
                  changing-IsTurn req m _ _
                    (λ r.
                      post_room_messages_keeps bodies m Reachable (Reachable-IsClosed m r) now key
                        (path_id 0 c) req.body)
                    (post_room_messages_keeps bodies m (Grows m) (Grows-IsClosed m) now key
                      (path_id 0 c) req.body),
              (λ c e. reading-IsTurn req m _, (λ c e. poll_turn-IsTurn req m (path_id 0 c), tt)),
            ),
          ),
        ),
      )

  pub serve-IsTurn :
      (matches : String → String → Option (List String))
      → IsTurn req m (serve bodies api_key now matches req m)
  unfolding serve
  serve-IsTurn matches = pre_routing-IsTurn req m _ (
      dispatch_keeps matches (responds (plain 404)) (IsTurn req m)
        (open_routes bodies api_key now ++ room_routes bodies api_key now) req m
        (reading-IsTurn req m _)
        (All-append IsTurning (open_routes bodies api_key now) (room_routes bodies api_key now)
          open_routes-IsTurning room_routes-IsTurning))
