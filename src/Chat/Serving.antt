-- ===== src/Chat/Serving.antt =====
-- The handlers of the chat keep what its operations keep.
use architecture_course.Prelude.{
  ◌⊎◌, nat_eq, string_eq, ℕ, String, Option, true, ◌≡◌, refl, arith, Option-cases, inl, inr, Result,
  ok, err,
}
use architecture_course.Prelude.Map.{lookup, contains}
use architecture_course.Chat.Manager.{
  ChatManager, authenticate, create_participant, create_room, add_participant_to_room,
  remove_participant_from_room, create_message,
}
use architecture_course.Chat.Reachable.{
  Reachable, creates_participant, creates_room, adds_participant, removes_participant,
  creates_message, Reachable-IsSound,
}
use architecture_course.Chat.Handlers.{
  Bodies, resolve_auth_participant, read_name, post_participants, post_rooms,
  post_room_participants, delete_room_participant, post_room_messages,
}

-- A caller with a valid key is a participant.
resolved_participant :
    (m : ChatManager) (api_key : String) (id : ℕ)
    → Reachable m
    → resolve_auth_participant m api_key ≡ ok id
    → contains id m.participants ≡ true
unfolding resolve_auth_participant authenticate
resolved_participant m api_key id r e = elim (Option-cases (lookup api_key m.api_key_index)) [
  | inl n ↦ absurd (ground arith)
  | inr (j, n) ↦
      let key = (Reachable-IsSound r).keys.at api_key j n in let stored = key.stored in ground arith
]

pub Result-cases {ℓ} :
    {A : Type ℓ} (r : Result A) → ((message : String) × (r ≡ err message)) ⊎ ((a : A) × (r ≡ ok a))
Result-cases (ok a) = inr (a, refl)
Result-cases (err message) = inl (message, refl)

-- What holds of a chat and of what each operation makes of it. A room is created only by a caller with
-- a valid key.
pub record IsClosed (P : ChatManager → Type 0) (m : ChatManager) : Type 0 where
  pub kept : P m
  pub participant : (api_key name : String) → P (create_participant m api_key name).1
  pub room :
      (api_key name : String) (id : ℕ)
      → resolve_auth_participant m api_key ≡ ok id
      → P (create_room m name id).1
  pub added : (k u p : ℕ) → P (add_participant_to_room m k u p).1
  pub removed : (k u p : ℕ) → P (remove_participant_from_room m k u p).1
  pub posted :
      (now k u : ℕ) (type text image_url : String)
      → P (create_message m now k u type text image_url).1

pub Reachable-IsClosed : (m : ChatManager) → Reachable m → IsClosed Reachable m
Reachable-IsClosed m reachable = record {
  kept = reachable;
  participant = λ api_key name. creates_participant api_key name reachable;
  room = λ api_key name id e.
      creates_room name id (resolved_participant m api_key id reachable e) reachable;
  added = λ k u p. adds_participant k u p reachable;
  removed = λ k u p. removes_participant k u p reachable;
  posted = λ now k u type text image_url. creates_message now k u type text image_url reachable;
}

module _ {ℓ} {J : Type ℓ} (bodies : Bodies J) (m : ChatManager) (P : ChatManager → Type 0)
    (c : IsClosed P m) where
  pub post_participants_keeps :
      (api_key body : String) → P (post_participants bodies m api_key body).1
  unfolding post_participants
  post_participants_keeps api_key body = elim (Result-cases (read_name bodies m body)) [
    | inl (message, e) ↦ rw (e, post_participants) c.kept
    | inr (name, e) ↦ rw (e, post_participants) (c.participant api_key name)
  ]

  pub post_rooms_keeps : (api_key body : String) → P (post_rooms bodies m api_key body).1
  unfolding post_rooms
  post_rooms_keeps api_key body = elim (Result-cases (resolve_auth_participant m api_key)) [
    | inl (message, e) ↦ rw (e, post_rooms) c.kept
    | inr (id, e) ↦ elim (Result-cases (read_name bodies m body)) [
      | inl (message, f) ↦ rw (e, post_rooms, f) c.kept
      | inr (name, f) ↦ rw (e, post_rooms, f) (c.room api_key name id e)
    ]
  ]

  pub post_room_participants_keeps :
      (api_key : String) (room : Option ℕ) (body : String)
      → P (post_room_participants bodies m api_key room body).1
  unfolding post_room_participants
  post_room_participants_keeps api_key room body =
      elim (Result-cases (resolve_auth_participant m api_key)) [
        | inl (message, e) ↦ rw (e, post_room_participants) c.kept
        | inr (id, e) ↦ elim (Option-cases (bodies.parse body)) [
          | inl f ↦ rw (e, post_room_participants, f) c.kept
          | inr (j, f) ↦ elim (Option-cases (bodies.integer_field "participantId" j)) [
            | inl g ↦ rw (e, post_room_participants, f, g) c.kept
            | inr (p, g) ↦ elim (Option-cases room) [
              | inl n ↦ rw (e, post_room_participants, f, g, n) c.kept
              | inr (k, n) ↦ rw (e, post_room_participants, f, g, n) (c.added k id p)
            ]
          ]
        ]
      ]

  pub delete_room_participant_keeps :
      (api_key : String) (room participant : Option ℕ)
      → P (delete_room_participant bodies m api_key room participant).1
  unfolding delete_room_participant
  delete_room_participant_keeps api_key room participant =
      elim (Result-cases (resolve_auth_participant m api_key)) [
        | inl (message, e) ↦ rw (e, delete_room_participant) c.kept
        | inr (id, e) ↦ elim (Option-cases room) [
          | inl n ↦ rw (e, delete_room_participant, n) c.kept
          | inr (k, n) ↦ elim (Option-cases participant) [
            | inl f ↦ rw (e, delete_room_participant, n, f) c.kept
            | inr (p, f) ↦ rw (e, delete_room_participant, n, f) (c.removed k id p)
          ]
        ]
      ]

  pub post_room_messages_keeps :
      (now : ℕ) (api_key : String) (room : Option ℕ) (body : String)
      → P (post_room_messages bodies m now api_key room body).1
  unfolding post_room_messages
  post_room_messages_keeps now api_key room body =
      elim (Result-cases (resolve_auth_participant m api_key)) [
        | inl (message, e) ↦ rw (e, post_room_messages) c.kept
        | inr (id, e) ↦ elim (Option-cases (bodies.parse body)) [
          | inl f ↦ rw (e, post_room_messages, f) c.kept
          | inr (j, f) ↦ elim (Option-cases (bodies.string_field "type" j)) [
            | inl g ↦ rw (e, post_room_messages, f, g) c.kept
            | inr (type, g) ↦ elim (Option-cases room) [
              | inl n ↦ rw (e, post_room_messages, f, g, n) c.kept
              | inr (k, n) ↦ rw (e, post_room_messages, f, g, n) (c.posted now k id type _ _)
            ]
          ]
        ]
      ]
