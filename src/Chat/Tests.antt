-- ===== src/Chat/Tests.antt =====
-- A room with two members and three messages, and the theorems of the chat at it.
use architecture_course.Prelude.{
  eq_iff, arith, ok, has, nat_eq, string_eq, ℕ, String, none, some, [], ◌∷◌, true, ◌≡◌, refl,
}
use architecture_course.Prelude.Int.{pos, negsuc}
use architecture_course.Prelude.Map.{Map, lookup, insert}
use architecture_course.Chat.Manager.{
  Message, ChatRoom, ChatManager, new_chat, create_participant, create_room,
  add_participant_to_room, remove_participant_from_room, create_message, get_messages, finish_poll,
  filter_messages, read, read_not_in_room, authenticate,
}
use architecture_course.Chat.Valid.{IsSound}
use architecture_course.Chat.Reachable.{
  Reachable, initial, creates_participant, creates_room, adds_participant, creates_message,
  Reachable-IsSound,
}
use architecture_course.Prelude.Decimal.Parsing.{parse_signed, take_sign, skip_spaces, read_digits}
use architecture_course.Chat.Query.{parse_int64}
use architecture_course.Chat.Keys.{generate_api_key, key_digits, IsKey, fresh_key}
use architecture_course.Chat.Reading.{messages_since, removed_reader}
use architecture_course.Chat.Handlers.{resolve_auth_participant, Bodies}

-- Ann opens a room and lets Bob in.
abbrev opened : ChatManager
opened =
    (add_participant_to_room
      (create_room (create_participant (create_participant new_chat "a1" "ann").1 "b2" "bob").1
        "tea" 1).1
      1 1 2).1

opened-Reachable : Reachable opened
unfolding new_chat create_participant lookup insert
opened-Reachable = adds_participant 1 1 2 (
    creates_room "tea" 1 refl
      (creates_participant "b2" "bob" (creates_participant "a1" "ann" initial)))

-- They talk.
abbrev talked : ChatManager
talked =
    (create_message
      (create_message (create_message opened 100 1 1 "text" "hello" "").1 101 1 2 "text" "hi" "").1
      102 1 1 "image" "" "cat.png").1

talked-Reachable : Reachable talked
talked-Reachable = creates_message 102 1 1 "image" "" "cat.png" (
    creates_message 101 1 2 "text" "hi" ""
      (creates_message 100 1 1 "text" "hello" "" opened-Reachable))

Reachable-IsSound_example : IsSound talked
Reachable-IsSound_example = Reachable-IsSound talked-Reachable

abbrev hello : Message
hello = record {
  id = 1;
  room_id = 1;
  author_id = 1;
  type = "text";
  text = "hello";
  image_url = "";
  created_at_ms = 100;
}

abbrev hi : Message
hi = record hello { id = 2; author_id = 2; text = "hi"; created_at_ms = 101 }

abbrev cat : Message
cat = record hello { id = 3; type = "image"; text = ""; image_url = "cat.png"; created_at_ms = 102 }

abbrev tea_room : ChatRoom
tea_room = record {
  id = 1;
  name = "tea";
  participants = 2 ∷ 1 ∷ [];
  messages = hello ∷ hi ∷ cat ∷ [];
}

tea_stored : lookup 1 talked.rooms ≡ some tea_room
unfolding new_chat create_participant create_room add_participant_to_room create_message lookup
    insert has
tea_stored = refl

ann_inside : has 1 tea_room.participants ≡ true
unfolding has
ann_inside = refl

bob_inside : has 2 tea_room.participants ≡ true
unfolding has
bob_inside = refl

messages_since_example :
    (get_messages talked 1 1 (pos 1) (pos 0) (negsuc 0) ≡ read (hi ∷ cat ∷ []))
    × (finish_poll talked 1 (pos 1) (pos 0) ≡ some (read (hi ∷ cat ∷ [])))
messages_since_example =
    messages_since talked 1 1 tea_room [] (hi ∷ cat ∷ []) hello talked-Reachable tea_stored
      ann_inside refl

removed_reader_example :
    (get_messages (remove_participant_from_room talked 1 1 2).1 1 2 (pos 2) (pos 0) (pos 0)
      ≡ read_not_in_room)
    × (finish_poll (remove_participant_from_room talked 1 1 2).1 1 (pos 2) (pos 0)
        ≡ some (read (filter_messages tea_room (pos 2) (pos 0) (negsuc 0))))
removed_reader_example =
    removed_reader talked 1 1 2 tea_room (pos 2) (pos 0) (pos 0) talked-Reachable tea_stored
      ann_inside bob_inside

-- A body is a table of texts and numbers.
pub record Fields : Type 0 where
  pub strings : Map String String
  pub integers : Map String ℕ

abbrev pub bodies : Bodies Fields
bodies = record {
  parse = λ body. some (record {
    strings = ("name", body) ∷ ("type", "text") ∷ ("text", body) ∷ [];
    integers = ("participantId", 2) ∷ [];
  });
  string_field = λ key j. lookup key j.strings;
  integer_field = λ key j. lookup key j.integers;
}

-- Blanks, a plus and the range of `ParseInt64`.
parses :
    (parse_int64 " +42" ≡ some (pos 42))
    × (parse_int64 "42 " ≡ none)
    × (parse_int64 "-9223372036854775808" ≡ some (negsuc 9223372036854775807))
    × (parse_int64 "9223372036854775808" ≡ none)
unfolding parse_int64 parse_signed take_sign skip_spaces read_digits
parses = (refl, refl, refl, refl)

-- The key of a generator that counts.
counted_key : generate_api_key (λ i. i) 8 ≡ "89abcdef0123456789abcdef01234567"
unfolding generate_api_key key_digits
counted_key = refl

fresh_key_example :
    let key = generate_api_key (λ i. i) 8 in
    let (participant, after) = create_participant new_chat key "ann" in
    IsKey 32 key
    × (resolve_auth_participant after key ≡ ok participant.id)
    × (authenticate after "1234" ≡ authenticate new_chat "1234")
fresh_key_example =
    fresh_key (λ i. i) 8 new_chat "ann" "1234"
      (λ e. ground (arith, eq_iff "89abcdef0123456789abcdef01234567" "1234", counted_key, e))
