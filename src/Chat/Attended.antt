-- ===== src/Chat/Attended.antt =====
-- Every poll that waits is answered.
use architecture_course.Prelude.{nat_eq, some, none, List, [], ◌≡◌, ◌⊎◌}
use architecture_course.Prelude.Int.{ℤ, pos, ◌≤ℤ◌}
use architecture_course.Prelude.Map.{lookup}
use architecture_course.Prelude.Http.{HttpRequest, HttpResponse, with_json}
use architecture_course.Chat.Manager.{Message, ChatRoom, ChatManager}
use architecture_course.Chat.Reachable.{Reachable}
use architecture_course.Chat.Polling.{asked_of}
use architecture_course.Chat.Server.{Waiting, with_origin, messages_json, query, wake}

-- The answer to a poll with some messages: these, or 204 and no body if there are none.
abbrev pub IsAnswer : List Message → HttpResponse ℤ → Type 0
IsAnswer messages res =
    ((messages ≡ []) × (res.status ≡ 204) × (res.content ≡ none))
    ⊎ (res ≡ with_origin (with_json 200 (messages_json messages)))

-- A poll that waits in a chat: its wait is of 1 to 60 seconds, and if it ends in this chat, then the
-- answer has the messages that its room has for it.
pub record IsAttended (req : HttpRequest) (w : Waiting) (m : ChatManager) : Type 0 where
  pub least : pos 1 ≤ℤ w.timeout
  pub most : w.timeout ≤ℤ pos 60
  pub room : ChatRoom
  pub found : lookup w.room_id m.rooms ≡ some room
  pub response : HttpResponse ℤ
  pub woken : wake w m ≡ some response
  pub answer : IsAnswer (asked_of room (query req "sinceId") (query req "fromTs")) response
