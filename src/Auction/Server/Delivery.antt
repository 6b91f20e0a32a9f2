-- ===== src/Auction/Server/Delivery.antt =====
-- What `Deliver` does to the queue of each session, and what the snapshot of `Broadcast` holds.
use architecture_course.Prelude.{
  ap, ◌∙◌, Bool, true, false, nat_eq, ℕ, Option, none, some, List, [], ◌∷◌, ◌||◌, ◌==◌, ◌≡◌, refl,
  arith, inl, inr, Option-cases, if◌then◌else◌, has, has-append, Once, Once-append, nat_beq_iff,
}
use architecture_course.Prelude.Map.{Map, lookup}
use architecture_course.Prelude.Map.Laws.{lookup-insert}
use architecture_course.Auction.Session.WriteQueue.{Writer, queue_write}
use architecture_course.Auction.Server.{
  announcement, Message, register_session, deliver, Handling, handling_of, handling, set_handling,
  deliveries, Server,
}
use architecture_course.Auction.Server.Hearing.{underway, only}
use architecture_course.Auction.Session.{Event}

module _ {ℓ} {W : Type ℓ} where
  -- The queue of a session, if there is one, with a message more.
  abbrev pub queued : Message W → Option (Writer (Message W)) → Option (Writer (Message W))
  queued message none = none
  queued message (some w) = some (queue_write message w)

  pub lookup-deliver :
      (message : Message W) (i session : ℕ) (writers : Map ℕ (Writer (Message W)))
      → lookup i (deliver message session writers)
        ≡ (if session == i then queued message (lookup i writers) else lookup i writers)
  unfolding deliver
  lookup-deliver message i session writers = elim (Option-cases (lookup session writers)) [
    | inl e ↦ rw (e, deliver) (ground (arith, e, nat_beq_iff session i))
    | inr (w, e) ↦
        rw (e, deliver, lookup-insert session i (queue_write message w) writers)
          (ground (arith, e, nat_beq_iff session i))
  ]

  -- What the handler of a session that takes its next step has underway; the others keep what they have.
  pub handling-set_handling :
      (h session : ℕ) (work : Handling W) (s : Server W)
      → handling h (set_handling session work s) ≡ (if session == h then work else handling h s)
  handling-set_handling h session work s =
      ap handling_of (lookup-insert session h work s.handlers) ∙ chosen (session == h)
    where
      chosen :
          (b : Bool)
          → handling_of (if b then some work else lookup h s.handlers)
            ≡ (if b then work else handling h s)
      chosen true = refl
      chosen false = refl

  none_underway :
      (event : Event W) (i : ℕ) (sessions : List ℕ)
      → has i sessions ≡ false
      → underway i (deliveries event sessions) ≡ []
  unfolding deliveries has
  none_underway event i [] e = refl
  none_underway event i (session ∷ sessions) e = ground (arith, none_underway event i sessions, e)

  -- A snapshot holds each registered session once.
  pub underway-deliveries :
      (event : Event W) (i : ℕ) (sessions : List ℕ)
      → Once sessions
      → underway i (deliveries event sessions) ≡ only (has i sessions) (announcement event)
  unfolding deliveries has
  underway-deliveries event i [] once = refl
  underway-deliveries event i (session ∷ sessions) once = ground (
    arith,
    underway-deliveries event i sessions once.1,
    none_underway event i sessions,
    nat_beq_iff session i,
    once.0,
  )

pub has-register_session :
    (i session : ℕ) (sessions : List ℕ)
    → has i (register_session session sessions) ≡ (session == i || has i sessions)
unfolding register_session
has-register_session i session sessions =
    ground (arith, has-append i session sessions, nat_beq_iff session i)

pub Once-register_session :
    (session : ℕ) (sessions : List ℕ) → Once sessions → Once (register_session session sessions)
unfolding register_session
Once-register_session session sessions once = ground (arith, Once-append session sessions)
