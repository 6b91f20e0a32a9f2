-- ===== src/Chat/Outside.antt =====
-- What a caller without a valid key can see and do.
use architecture_course.Prelude.{
  some, nat_eq, string_eq, ℕ, String, Option, List, ◌++◌, none, true, ◌≡◌, refl, arith, Bool-cases,
  inl, inr, is_empty, err, All, All-append,
}
use architecture_course.Prelude.Http.{HttpRequest, Route, plain, same_method, dispatch_relates}
use architecture_course.Chat.Manager.{ChatManager, authenticate, create_participant}
use architecture_course.Chat.Handlers.{
  Bodies, resolve_auth_participant, read_name, post_participants, post_rooms,
  post_room_participants, delete_room_participant, post_room_messages, get_room_messages,
  poll_room_messages,
}
use architecture_course.Chat.Serving.{Result-cases}
use architecture_course.Chat.Server.{
  participant_json, Turn, responds, waits, changing, pre_routing, open_routes, room_routes, serve,
}

-- Two chats in which nobody has the key, and which give the next participant the same id.
pub record IsOutside (api_key : String) (m n : ChatManager) : Type 0 where
  pub unknown : authenticate m api_key ≡ none
  pub unknown' : authenticate n api_key ≡ none
  pub next : m.next_participant_id ≡ n.next_participant_id

-- The same turn in two chats, which leaves the first one's rooms as they are.
abbrev IsSame : ChatManager → Turn × ChatManager → Turn × ChatManager → Type 0
IsSame m r r' = (r.0 ≡ r'.0) × (r.1.rooms ≡ m.rooms)

refused_both :
    (api_key : String) (m n : ChatManager)
    → IsOutside api_key m n
    → (message : String) × (resolve_auth_participant m api_key ≡ err message)
      × (resolve_auth_participant n api_key ≡ err message)
unfolding resolve_auth_participant
refused_both api_key m n o = elim (Bool-cases (is_empty api_key)) [
  | inl b ↦ ("Missing X-API-Key header", rw b refl, rw b refl)
  | inr b ↦ ("Invalid API key", rw (b, o.unknown) refl, rw (b, o.unknown') refl)
]

pre_routing-IsSame :
    (m : ChatManager) (r r' : Turn × ChatManager)
    → IsSame m r r'
    → IsSame m (pre_routing r) (pre_routing r')
pre_routing-IsSame m (responds res, after) (responds res', after') (e, k) = (cc, k)
pre_routing-IsSame m (responds res, after) (waits w, after') (e, k) = absurd (ground arith)
pre_routing-IsSame m (waits w, after) (responds res, after') (e, k) = absurd (ground arith)
pre_routing-IsSame m (waits w, after) (waits w', after') (e, k) = (e, k)

module _ {ℓ} {J : Type ℓ} (bodies : Bodies J) (drawn : String) (now : ℕ) (m n : ChatManager)
    (req : HttpRequest) (o : IsOutside (req.header "X-API-Key") m n) where
  abbrev IsBlind : Route ChatManager Turn → Type 0
  IsBlind r =
      (captured : List String)
      → same_method r.method req.method ≡ true
      → IsSame m (r.handler req captured m) (r.handler req captured n)

  join_blindly :
      IsSame m
        (changing (λ p. some (participant_json p)) (post_participants bodies m drawn req.body))
        (changing (λ p. some (participant_json p)) (post_participants bodies n drawn req.body))
  unfolding post_participants create_participant
  join_blindly = elim (Result-cases (read_name bodies m req.body)) [
    | inl (message, e) ↦ rw (e, post_participants) (refl, refl)
    | inr (name, e) ↦ rw (e, post_participants, o.next) (refl, refl)
  ]

  open_routes-IsBlind : All IsBlind (open_routes bodies drawn now)
  open_routes-IsBlind =
      (λ c e. (refl, refl), (λ c e. (refl, refl), (λ c e. (refl, refl), (λ c e. join_blindly, tt))))

  room_routes-IsBlind : All IsBlind (room_routes bodies drawn now)
  unfolding post_rooms post_room_participants delete_room_participant post_room_messages
      get_room_messages poll_room_messages
  room_routes-IsBlind =
      let (message, r, r') = refused_both _ m n o in
      (
        λ c e. rw (post_rooms, r, r') (refl, refl),
        (
          λ c e. rw (post_room_participants, r, r') (refl, refl),
          (
            λ c e. rw (delete_room_participant, r, r') (refl, refl),
            (
              λ c e. rw (post_room_messages, r, r') (refl, refl),
              (
                λ c e. rw (get_room_messages, r, r') (refl, refl),
                (λ c e. rw (poll_room_messages, r, r') (refl, refl), tt),
              ),
            ),
          ),
        ),
      )

-- The refusal of an unauthenticated caller, which leaves the chat as it was.
abbrev pub IsRefusal : ChatManager → Turn × ChatManager → Type 0
IsRefusal m (responds res, after) = (res.status ≡ 401) × (after ≡ m)
IsRefusal m (waits w, after) = ⊥

module _ {ℓ} {J : Type ℓ} (bodies : Bodies J) (drawn : String) (now : ℕ) (m n : ChatManager)
    (req : HttpRequest) (o : IsOutside (req.header "X-API-Key") m n) where
  room_routes-IsRefusal :
      All
        (λ (r : Route ChatManager Turn).
          (captured : List String) → IsRefusal m (r.handler req captured m))
        (room_routes bodies drawn now)
  unfolding post_rooms post_room_participants delete_room_participant post_room_messages
      get_room_messages poll_room_messages
  room_routes-IsRefusal =
      let (message, r, r') = refused_both _ m n o in
      (
        λ c. rw (post_rooms, r) (refl, refl),
        (
          λ c. rw (post_room_participants, r) (refl, refl),
          (
            λ c. rw (delete_room_participant, r) (refl, refl),
            (
              λ c. rw (post_room_messages, r) (refl, refl),
              (
                λ c. rw (get_room_messages, r) (refl, refl),
                (λ c. rw (poll_room_messages, r) (refl, refl), tt),
              ),
            ),
          ),
        ),
      )

  serve-IsSame :
      (matches : String → String → Option (List String))
      → IsSame m (serve bodies drawn now matches req m) (serve bodies drawn now matches req n)
  unfolding serve
  serve-IsSame matches = pre_routing-IsSame m _ _ (
      dispatch_relates matches (responds (plain 404)) (IsSame m)
        (open_routes bodies drawn now ++ room_routes bodies drawn now) req m n (refl, refl)
        (All-append (IsBlind bodies drawn now m n req o) (open_routes bodies drawn now)
          (room_routes bodies drawn now) (open_routes-IsBlind bodies drawn now m n req o)
          (room_routes-IsBlind bodies drawn now m n req o)))

-- A caller whose key nobody has is refused with 401 by every route of rooms, which leaves the chat as it
-- is. Whatever it asks, it is answered the same in any other such chat that gives the next participant
-- the same id, so it learns nothing of the rooms, and the rooms stay as they are.
pub serve-outside {ℓ} :
    {J : Type ℓ} (bodies : Bodies J) (drawn : String) (now : ℕ)
    (matches : String → String → Option (List String)) (req : HttpRequest) (m n : ChatManager)
    → IsOutside (req.header "X-API-Key") m n
    → (All
        (λ (r : Route ChatManager Turn).
          (captured : List String) → IsRefusal m (r.handler req captured m))
        (room_routes bodies drawn now))
      × ((serve bodies drawn now matches req m).0 ≡ (serve bodies drawn now matches req n).0)
      × ((serve bodies drawn now matches req m).1.rooms ≡ m.rooms)
serve-outside bodies drawn now matches req m n o =
    let (answer, rooms) = serve-IsSame bodies drawn now m n req o matches in
    (room_routes-IsRefusal bodies drawn now m n req o, answer, rooms)
