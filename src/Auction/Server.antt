-- ===== src/Auction/Server.antt =====
-- src/websocket_auction_server/server.cpp, and the callbacks of session.cpp that reach the server. A
-- session is a number, in place of its `shared_ptr`; its writes are those of `WriteQueue`. A message
-- that is posted to a session's strand stands in its queue at once: a strand keeps the order of what is
-- posted to it.
pub mod Hearing
pub mod Runs
pub mod Delivery
pub mod Hears
pub mod Heard
pub mod Order
pub mod Clients
mod Tests
use architecture_course.Prelude.{
  nat_eq, ℕ, ◌+◌, String, Option, none, some, List, [], ◌∷◌, ◌++◌, map, Bool, ◌==◌, ◌≡◌,
  if◌then◌else◌, has, remove_all,
}
use architecture_course.Prelude.Double.{Double}
use architecture_course.Prelude.Map.{Map, lookup, insert}
use architecture_course.Auction.Types.{AuctionManager, Clock}
use architecture_course.Auction.Session.{Event, Response, failure, Outcome}
use architecture_course.Auction.Session.WriteQueue.{
  Writer, new_writer, queue_write, on_write, on_write_error,
}

-- The messages that sessions are sent.
pub data Message {ℓ} (W : Type ℓ) : Type ℓ where
  announcement : Event W → Message W
  reply : Response W → Message W

-- What `OnRead` has still to do after its call of the manager.
pub data Task {ℓ} (W : Type ℓ) : Type ℓ where
  broadcasts : Event W → Task W
  answers : Response W → Task W

-- An `OnRead` at work: the deliveries of its `Broadcast` that are left of the snapshot, and what comes
-- after them.
pub record Handling {ℓ} (W : Type ℓ) : Type ℓ where
  pub snapshot : List (Event W × ℕ)
  pub tasks : List (Task W)

-- `sessions` are the registered sessions, `writers` those that were ever made, and `handlers` the calls
-- of `OnRead` that the threads of the server run.
pub record Server {ℓ} (W : Type ℓ) : Type ℓ where
  pub manager : AuctionManager W
  pub sessions : List ℕ
  pub writers : Map ℕ (Writer (Message W))
  pub handlers : Map ℕ (Handling W)
  pub next_session : ℕ

-- `sessions_.insert` and `sessions_.erase`
unfoldable pub register_session : ℕ → List ℕ → List ℕ
register_session session sessions =
    if has session sessions then sessions else sessions ++ (session ∷ [])

abbrev pub unregister_session : ℕ → List ℕ → List ℕ
unregister_session session sessions = remove_all session sessions

module _ {ℓ} {W : Type ℓ} where
  abbrev pub new_server : AuctionManager W → Server W
  new_server m = record {
    manager = m;
    sessions = [];
    writers = [];
    handlers = [];
    next_session = 0;
  }

  abbrev pub idle : Handling W
  idle = record { snapshot = []; tasks = [] }

  abbrev pub handling_of : Option (Handling W) → Handling W
  handling_of none = idle
  handling_of (some h) = h

  -- The `OnRead` of a session, which its strand runs one at a time; `idle` if there is none.
  abbrev pub handling : ℕ → Server W → Handling W
  handling session s = handling_of (lookup session s.handlers)

  abbrev pub set_handling : ℕ → Handling W → Server W → Server W
  set_handling session h s = record s { handlers = insert session h s.handlers }

  -- `Deliver`: the message is queued in the session.
  unfoldable pub deliver : Message W → ℕ → Map ℕ (Writer (Message W)) → Map ℕ (Writer (Message W))
  deliver message session writers = elim (lookup session writers) [
    | none ↦ writers
    | some w ↦ insert session (queue_write message w) writers
  ]

  -- `Broadcast` up to its loop, in the `OnRead` of a session: the snapshot of the registered sessions,
  -- which is taken under the mutex.
  unfoldable pub deliveries : Event W → List ℕ → List (Event W × ℕ)
  deliveries event [] = []
  deliveries event (receiver ∷ receivers) = (event, receiver) ∷ deliveries event receivers

  unfoldable pub broadcast : ℕ → Event W → List (Task W) → Server W → Server W
  broadcast session event tasks s =
      set_handling session (record { snapshot = deliveries event s.sessions; tasks = tasks }) s

  -- One round of its loop, without the mutex.
  unfoldable pub deliver_next :
      ℕ → Event W → ℕ → List (Event W × ℕ) → List (Task W) → Server W → Server W
  deliver_next session event receiver snapshot tasks s =
      set_handling session (record { snapshot = snapshot; tasks = tasks })
        (record s { writers = deliver (announcement event) receiver s.writers })

  -- `Server::OnAccept` without an error: a session is made and registered.
  unfoldable pub on_accept : Server W → Server W
  on_accept s = record {
    manager = s.manager;
    handlers = s.handlers;
    sessions = register_session s.next_session s.sessions;
    writers = insert s.next_session new_writer s.writers;
    next_session = s.next_session + 1;
  }

  -- `Session::OnAccept` and `Session::OnRead` with an error, or with a closed connection.
  unfoldable pub on_closed : ℕ → Server W → Server W
  on_closed session s = record s { sessions = unregister_session session s.sessions }

  -- `Deliver(response)`, which ends an `OnRead` but for its `DoRead`.
  unfoldable pub answer : ℕ → Response W → List (Task W) → Server W → Server W
  answer session response tasks s =
      set_handling session (record { snapshot = []; tasks = tasks })
        (record s { writers = deliver (reply response) session s.writers })

  abbrev pub tasks_of : Outcome W → List (Task W)
  tasks_of o = map broadcasts o.events ++ (answers o.response ∷ [])

  -- `OnRead` of a request that `HandleRequest` answers, up to the end of its call of the manager, which
  -- has the manager's mutex. Its broadcasts and its answer are steps of their own. (`get_state` calls the
  -- manager twice, for users and for items.)
  unfoldable pub on_read : ℕ → Outcome W → Server W → Server W
  on_read session o s =
      set_handling session (record { snapshot = []; tasks = tasks_of o })
        (record s { manager = o.manager })

  -- `OnRead` of a text that is no JSON, or that makes the handler throw. `what` is "invalid request: "
  -- and the text of the exception, one that `dump` accepts.
  unfoldable pub on_read_invalid : ℕ → String → Server W → Server W
  on_read_invalid session what s =
      set_handling session (record { snapshot = []; tasks = answers (failure "unknown" what) ∷ [] })
        s

  -- `OnWrite` of the session for the message that was written, and with an error.
  unfoldable pub on_written : ℕ → Message W → Writer (Message W) → Server W → Server W
  on_written session message w s = record s {
    writers = insert session (on_write message w) s.writers;
  }

  unfoldable pub on_write_failed : ℕ → Writer (Message W) → Server W → Server W
  on_write_failed session w s = record s {
    sessions = unregister_session session s.sessions;
    writers = insert session (on_write_error w) s.writers;
  }
