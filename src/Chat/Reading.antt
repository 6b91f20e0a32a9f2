-- ===== src/Chat/Reading.antt =====
-- Reading a room's messages since the last one seen.
use architecture_course.Prelude.{
  has-erase_first, nat_eq, string_eq, ℕ, ◌<◌, ◌≤◌, some, List, [], ◌∷◌, ◌++◌, Bool, true, false,
  ◌≡◌, refl, ◌∙◌, arith, has, erase_first, keep_if,
}
use architecture_course.Prelude.Int.{ℤ, pos, negsuc}
use architecture_course.Prelude.Map.{lookup}
use architecture_course.Prelude.Map.Laws.{beq_refl, lookup-insert_self}
use architecture_course.Chat.Manager.{
  read_not_in_room, Message, ChatRoom, ChatManager, read, get_messages, filter_messages, is_kept,
  finish_poll, remove_participant_from_room, put_room,
}
use architecture_course.Chat.Valid.{Rising}
use architecture_course.Chat.Reachable.{Reachable, Reachable-IsSound}

-- Without a time window, the messages that are kept are those above `since_id`.
abbrev kept_since : ℕ → Message → Bool
kept_since n = is_kept (pos n) (pos 0) (negsuc 0)

keep_all :
    (n low : ℕ) (new : List Message) → n ≤ low → Rising low new → keep_if (kept_since n) new ≡ new
keep_all n low [] h r = refl
keep_all n low (x ∷ xs) h r =
    let rest = keep_all n x.id xs (omega (arith, h, r.0)) r.1 in
    let above : n < x.id = omega (arith, h, r.0) in ground arith

below_later :
    (low : ℕ) (old : List Message) (x : Message) (new : List Message)
    → Rising low (old ++ (x ∷ new))
    → low < x.id
below_later low [] x new r = r.0
below_later low (y ∷ ys) x new r = omega (arith, r.0, below_later y.id ys x new r.1)

-- Of messages with rising ids, those after one of them are kept.
keep_later :
    (low : ℕ) (old : List Message) (x : Message) (new : List Message)
    → Rising low (old ++ (x ∷ new))
    → keep_if (kept_since x.id) (old ++ (x ∷ new)) ≡ new
keep_later low [] x new r = let rest = keep_all x.id x.id new (omega arith) r.1 in ground arith
keep_later low (y ∷ ys) x new r =
    let rest = keep_later y.id ys x new r.1 in
    let above = below_later y.id ys x new r.1 in ground arith

-- In a reachable chat, a member who asks for the messages since any message of the room gets exactly
-- the later ones, in order, whether by a request for messages or at the end of a poll: nothing is lost
-- or repeated.
pub messages_since :
    (m : ChatManager) (k u : ℕ) (r : ChatRoom) (old new : List Message) (x : Message)
    → Reachable m
    → lookup k m.rooms ≡ some r
    → has u r.participants ≡ true
    → r.messages ≡ old ++ (x ∷ new)
    → (get_messages m k u (pos x.id) (pos 0) (negsuc 0) ≡ read new)
      × (finish_poll m k (pos x.id) (pos 0) ≡ some (read new))
unfolding get_messages finish_poll filter_messages
messages_since m k u r old new x reach e h s =
    let rising = ((Reachable-IsSound reach).rooms.at k r e).rising in
    let kept = keep_later 0 old x new (rw s at rising) in
    (rw (e, get_messages, h, s, kept) refl, rw (e, finish_poll, s, kept) refl)

refused_reader :
    (m : ChatManager) (k p : ℕ) (r : ChatRoom) (since from_ts to_ts : ℤ)
    → lookup k m.rooms ≡ some r
    → has p r.participants ≡ false
    → get_messages m k p since from_ts to_ts ≡ read_not_in_room
unfolding get_messages
refused_reader m k p r since from_ts to_ts e h = rw (e, get_messages, h) refl

finished_poll :
    (m : ChatManager) (k : ℕ) (r : ChatRoom) (since from_ts : ℤ)
    → lookup k m.rooms ≡ some r
    → finish_poll m k since from_ts ≡ some (read (filter_messages r since from_ts (negsuc 0)))
unfolding finish_poll
finished_poll m k r since from_ts e = rw (e, finish_poll) refl

-- A member who is removed from a room during a poll is refused afterwards, but the poll still answers
-- with the room's messages.
pub removed_reader :
    (m : ChatManager) (k u p : ℕ) (r : ChatRoom) (since from_ts to_ts : ℤ)
    → Reachable m
    → lookup k m.rooms ≡ some r
    → has u r.participants ≡ true
    → has p r.participants ≡ true
    → (get_messages (remove_participant_from_room m k u p).1 k p since from_ts to_ts
        ≡ read_not_in_room)
      × (finish_poll (remove_participant_from_room m k u p).1 k since from_ts
          ≡ some (read (filter_messages r since from_ts (negsuc 0))))
unfolding remove_participant_from_room filter_messages
removed_reader m k u p r since from_ts to_ts reach e h o =
    let once = ((Reachable-IsSound reach).rooms.at k r e).once in
    let gone : has p (erase_first p r.participants) ≡ false =
      has-erase_first p p r.participants once ∙ rw (beq_refl p) refl in
    let left : ChatRoom = record r { participants = erase_first p r.participants } in
    let found = lookup-insert_self k left m.rooms in
    rw (e, remove_participant_from_room, h, o)
      (
        refused_reader (put_room k left m) k p left since from_ts to_ts found gone,
        finished_poll (put_room k left m) k left since from_ts found,
      )
