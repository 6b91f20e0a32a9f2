-- ===== src/Auction/Server/Clients.antt =====
-- What the clients of the auction server receive in any of its runs.
use architecture_course.Auction.Session.Managers.{handle_request-IsLed}
use architecture_course.Auction.Reachable.{Reachable, Reachable-IsValid}
use architecture_course.Auction.Invariant.{IsValid}
use architecture_course.Prelude.{
  nat_eq, ℕ, Option, some, none, List, [], ◌++◌, false, ◌≡◌, refl, has, subst, arith,
}
use mathlib.Core.Option.{some-injective}
use architecture_course.Prelude.Double.{IsIeee, Double}
use architecture_course.Prelude.Map.{lookup}
use architecture_course.Auction.Types.{new_manager, AuctionManager}
use architecture_course.Auction.Session.{Requests}
use architecture_course.Auction.Session.WriteQueue.{Writer, IsInOrder, Posted-IsInOrder}
use architecture_course.Auction.Server.{
  on_write_failed, on_written, broadcast, deliver_next, answer, on_closed, on_read, on_accept,
  Message, Server, new_server, on_read_invalid, handling,
}
use architecture_course.Auction.Server.Hearing.{
  Notice, done, asked, posted, posted_from, underway, due_from,
}
use architecture_course.Auction.Server.Runs.{Served}
use architecture_course.Auction.Server.Heard.{IsHeard}
use architecture_course.Auction.Server.Hears.{Hears}
use architecture_course.Auction.Server.Order.{
  joined-IsHeard, left-IsHeard, written-IsHeard, failed-IsHeard, read-IsHeard, misread-IsHeard,
  announced-IsHeard, delivered-IsHeard, answered-IsHeard,
}

module _ {ℓ κ} {J : Type κ} {W : Type ℓ} ⦃d : Double W⦄ (json : Requests J W) (fuel : ℕ)
    (m : AuctionManager W) (h i : ℕ) where
  start-IsHeard : IsHeard h i [] (new_server m)
  unfolding lookup has
  start-IsHeard = record {
    once = tt;
    fresh = λ late. refl;
    member = refl;
    hears = refl;
    sent = refl;
    turns = refl;
  }

  Served-IsHeard :
      {log : List (Notice W)} {s : Server W} → Served json fuel m log s → IsHeard h i log s
  Served-IsHeard Served.start = start-IsHeard
  Served-IsHeard (Served.joins {log} {longer} {s} r e) =
      rw e (joined-IsHeard h i log s (Served-IsHeard r))
  Served-IsHeard (Served.leaves {log} {longer} {s} session r e) =
      rw e (left-IsHeard h i session log s (Served-IsHeard r))
  Served-IsHeard (Served.reads {log} {longer} {s} session clock request o r there at handled e) =
      rw e (read-IsHeard h i session o log s at (Served-IsHeard r))
  Served-IsHeard (Served.misreads {log} {longer} {s} session what r there at e) =
      rw e (misread-IsHeard h i session what log s at (Served-IsHeard r))
  Served-IsHeard (Served.broadcasts {log} {longer} {s} session event tasks r at e) =
      rw e (announced-IsHeard h i session event tasks log s at (Served-IsHeard r))
  Served-IsHeard
        (Served.delivers {log} {longer} {s} session event receiver snapshot tasks r there at e) =
      rw e (
        delivered-IsHeard h i session event receiver snapshot tasks log s there at
          (Served-IsHeard r))
  Served-IsHeard (Served.answers {log} {longer} {s} session response tasks r there at e) =
      rw e (answered-IsHeard h i session response tasks log s there at (Served-IsHeard r))
  Served-IsHeard (Served.writes {log} {s} session message w r there pending) =
      written-IsHeard h i session message w log s there pending (Served-IsHeard r)
  Served-IsHeard (Served.breaks {log} {longer} {s} session message w r there pending e) =
      rw e (failed-IsHeard h i session message w log s there pending (Served-IsHeard r))

  heard_state :
      (ps : List (Message W)) (o : Option (Writer (Message W))) (w : Writer (Message W))
      → Hears ps o
      → o ≡ some w
      → IsInOrder ps w
  heard_state ps none w heard e = absurd (ground (arith, e))
  heard_state ps (some v) w heard e =
      subst (IsInOrder ps) (some-injective _ _ e) (Posted-IsInOrder heard)

  -- In every run of the server, with sessions that join, leave, send requests and fail, and with the
  -- threads of the server between any two deliveries, take the calls of `OnRead` of one session `h` and
  -- the messages of one session `i`. The calls broadcast the events of each request of `h` and then
  -- answer it, in the order of the requests, and what is left of that is what the call at work has
  -- still to do. The messages that they post to `i`, with the deliveries of a
  -- broadcast that is underway, are exactly the events whose snapshot was taken while `i` was registered,
  -- each once and in the order of their snapshots, and, if `i` is `h`, the answers, each in its place
  -- after the events of its request. And `i` wrote, or has in its queue, exactly the messages that were
  -- posted to it, by all sessions, each once and in the order in which they were posted, of which it is
  -- writing the front while its connection works.
  pub Served-IsInOrder :
      {log : List (Notice W)} {s : Server W} (w : Writer (Message W))
      → Served json fuel m log s
      → lookup i s.writers ≡ some w
      → (done h log ++ (handling h s).tasks ≡ asked h log)
        × (posted_from h i log ++ underway i (handling h s).snapshot ≡ due_from h i false log)
        × IsInOrder (posted i log) w
  Served-IsInOrder {log} {s} w r e =
      let heard = Served-IsHeard r in
      (heard.turns, heard.sent, heard_state (posted i log) _ w heard.hears e)

module _ {ℓ κ} {J : Type κ} {W : Type ℓ} ⦃d : Double W⦄ (json : Requests J W) (fuel : ℕ) where
  Served-Reachable :
      {log : List (Notice W)} {s : Server W}
      → Served json fuel new_manager log s
      → Reachable s.manager
  unfolding on_accept on_closed on_read on_read_invalid broadcast deliver_next answer on_written
      on_write_failed
  Served-Reachable Served.start = Reachable.initial
  Served-Reachable (Served.joins r e) = Served-Reachable r
  Served-Reachable (Served.leaves session r e) = Served-Reachable r
  Served-Reachable (Served.reads {log} {longer} {s} session clock request o r there at handled e) =
      (handle_request-IsLed json fuel clock s.manager request (Served-Reachable r)).at o handled
  Served-Reachable (Served.misreads session what r there at e) = Served-Reachable r
  Served-Reachable (Served.broadcasts session event tasks r at e) = Served-Reachable r
  Served-Reachable (Served.delivers session event receiver snapshot tasks r there at e) =
      Served-Reachable r
  Served-Reachable (Served.answers session response tasks r there at e) = Served-Reachable r
  Served-Reachable (Served.writes session message w r there pending) = Served-Reachable r
  Served-Reachable (Served.breaks session message w r there pending e) = Served-Reachable r

  -- In every run of the server, whatever requests its clients send, the auctions stay consistent: the
  -- manager has the invariant of `IsValid`, if the doubles obey the laws of IEEE 754.
  pub Served-IsValid :
      {log : List (Notice W)} {s : Server W}
      → IsIeee W
      → Served json fuel new_manager log s
      → IsValid s.manager
  Served-IsValid laws r = Reachable-IsValid laws (Served-Reachable r)
