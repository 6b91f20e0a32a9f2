-- ===== src/Auction/Server/Runs.antt =====
-- The runs of the server: each step of each thread, in any order.
use architecture_course.Prelude.{nat_eq, ℕ, String, some, List, [], ◌∷◌, ◌++◌, true, ◌≡◌}
use architecture_course.Prelude.Double.{Double}
use architecture_course.Prelude.Map.{lookup, contains}
use architecture_course.Auction.Types.{AuctionManager, Clock}
use architecture_course.Auction.Session.{
  Event, Response, failure, Outcome, Requests, handle_request,
}
use architecture_course.Auction.Session.WriteQueue.{Writer}
use architecture_course.Auction.Server.{
  tasks_of, answer, deliver_next, broadcast, Task, idle, handling, Message, Server, new_server,
  on_accept, on_closed, on_read, on_read_invalid, on_written, on_write_failed,
}
use architecture_course.Auction.Server.Hearing.{
  Notice, joined, left, received, announced, delivered, answered,
}

module _ {ℓ κ} {J : Type κ} {W : Type ℓ} ⦃d : Double W⦄ (json : Requests J W) (fuel : ℕ) where
  -- The runs of the server from a manager. Any session can join, leave, send a request or a text that is
  -- no request, and complete the write that is pending or fail in it, in any order. Between the steps of
  -- one `OnRead`, its call of the manager, each snapshot, each delivery and its answer, come those of
  -- others. Only a session that was made, one with a writer, sends requests and is delivered to.
  pub data Served (m : AuctionManager W) : List (Notice W) → Server W → Type (ℓ ⊔ κ) where
    start : Served m [] (new_server m)
    joins :
        {log longer : List (Notice W)} {s : Server W}
        → Served m log s
        → longer ≡ log ++ (joined s.next_session ∷ [])
        → Served m longer (on_accept s)
    leaves :
        {log longer : List (Notice W)} {s : Server W} (session : ℕ)
        → Served m log s
        → longer ≡ log ++ (left session ∷ [])
        → Served m longer (on_closed session s)
    reads :
        {log longer : List (Notice W)} {s : Server W} (session : ℕ) (clock : Clock) (request : J)
        (o : Outcome W)
        → Served m log s
        → contains session s.writers ≡ true
        → handling session s ≡ idle
        → handle_request json fuel clock s.manager request ≡ some o
        → longer ≡ log ++ (received session (tasks_of o) ∷ [])
        → Served m longer (on_read session o s)
    misreads :
        {log longer : List (Notice W)} {s : Server W} (session : ℕ) (what : String)
        → Served m log s
        → contains session s.writers ≡ true
        → handling session s ≡ idle
        → longer ≡ log ++ (received session (Task.answers (failure "unknown" what) ∷ []) ∷ [])
        → Served m longer (on_read_invalid session what s)
    broadcasts :
        {log longer : List (Notice W)} {s : Server W} (session : ℕ) (event : Event W)
        (tasks : List (Task W))
        → Served m log s
        → handling session s ≡ record { snapshot = []; tasks = Task.broadcasts event ∷ tasks }
        → longer ≡ log ++ (announced session event ∷ [])
        → Served m longer (broadcast session event tasks s)
    delivers :
        {log longer : List (Notice W)} {s : Server W} (session : ℕ) (event : Event W) (receiver : ℕ)
        (snapshot : List (Event W × ℕ)) (tasks : List (Task W))
        → Served m log s
        → contains receiver s.writers ≡ true
        → handling session s ≡ record { snapshot = (event, receiver) ∷ snapshot; tasks = tasks }
        → longer ≡ log ++ (delivered session receiver event ∷ [])
        → Served m longer (deliver_next session event receiver snapshot tasks s)
    answers :
        {log longer : List (Notice W)} {s : Server W} (session : ℕ) (response : Response W)
        (tasks : List (Task W))
        → Served m log s
        → contains session s.writers ≡ true
        → handling session s ≡ record { snapshot = []; tasks = Task.answers response ∷ tasks }
        → longer ≡ log ++ (answered session response ∷ [])
        → Served m longer (answer session response tasks s)
    writes :
        {log : List (Notice W)} {s : Server W} (session : ℕ) (message : Message W)
        (w : Writer (Message W))
        → Served m log s
        → lookup session s.writers ≡ some w
        → w.in_flight ≡ some message
        → Served m log (on_written session message w s)
    breaks :
        {log longer : List (Notice W)} {s : Server W} (session : ℕ) (message : Message W)
        (w : Writer (Message W))
        → Served m log s
        → lookup session s.writers ≡ some w
        → w.in_flight ≡ some message
        → longer ≡ log ++ (left session ∷ [])
        → Served m longer (on_write_failed session w s)
