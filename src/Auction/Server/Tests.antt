-- ===== src/Auction/Server/Tests.antt =====
-- Two clients that make an account each, at the same time.
use architecture_course.Auction.Manager.{create_user}
use architecture_course.Prelude.{
  string_eq, nat_eq, ℕ, String, some, none, List, [], ◌∷◌, ◌++◌, true, false, ◌≡◌, refl, ◌==◌,
  if◌then◌else◌, has,
}
use architecture_course.Prelude.Int.{pos}
use architecture_course.Prelude.Double.{Cents, cents_double, Cents-IsIeee}
use architecture_course.Prelude.Map.{lookup, insert}
use architecture_course.Auction.Types.{new_manager, User}
use architecture_course.Auction.Invariant.{IsValid}
use architecture_course.Auction.Session.{
  Requests, Event, Payload, Outcome, success, handle_request, handle_action, on_create_user,
  conclude,
}
use architecture_course.Auction.Session.WriteQueue.{Writer, new_writer, queue_write, IsInOrder}
use architecture_course.Auction.Server.{
  Server, Message, announcement, reply, answers, new_server, on_accept, on_read, broadcast, deliver,
  deliver_next, deliveries, answer, register_session, handling, tasks_of,
}
use architecture_course.Auction.Server.Hearing.{
  Notice, joined, received, announced, delivered, answered, done, asked, posted, posted_from,
  underway, due_from,
}
use architecture_course.Auction.Server.Runs.{Served}
use architecture_course.Auction.Server.Clients.{Served-IsInOrder, Served-IsValid}

-- A request is the name of an account to make.
abbrev names : Requests String Cents
names = record {
  is_object = λ _. true;
  string_field = λ key request.
      if key == "action" then some "create_user" else if key == "name" then some request else none;
  integer_field = λ key request. none;
  number_field = λ key request. none;
}

abbrev clock : ℕ → ℕ
clock n = n

abbrev two_joined : Server Cents
two_joined = on_accept (on_accept (new_server new_manager))

abbrev joins : List (Notice Cents)
joins = joined 0 ∷ joined 1 ∷ []

two_joined-Served : Served names 9 new_manager joins two_joined
unfolding on_accept
two_joined-Served = Served.joins (Served.joins Served.start refl) refl

abbrev ann : User Cents
ann = record { id = 1; name = "ann"; balance = pos 0 }

abbrev made : Outcome Cents
made = record {
  response = success "create_user" (Payload.user_payload ann);
  events = Event.user_created ann ∷ [];
  manager = record new_manager { users = (1, ann) ∷ []; next_user_id = 2 };
}

makes_ann : handle_request names 9 clock new_manager "ann" ≡ some made
unfolding handle_request handle_action on_create_user conclude create_user insert new_manager
makes_ann = refl

abbrev bob : User Cents
bob = record { id = 2; name = "bob"; balance = pos 0 }

abbrev made_too : Outcome Cents
made_too = record {
  response = success "create_user" (Payload.user_payload bob);
  events = Event.user_created bob ∷ [];
  manager = record new_manager { users = (1, ann) ∷ (2, bob) ∷ []; next_user_id = 3 };
}

makes_bob : handle_request names 9 clock made.manager "bob" ≡ some made_too
unfolding handle_request handle_action on_create_user conclude create_user insert new_manager
makes_bob = refl

abbrev ann_made : Event Cents
ann_made = Event.user_created ann

abbrev bob_made : Event Cents
bob_made = Event.user_created bob

abbrev both_read : Server Cents
both_read = on_read 1 made_too (on_read 0 made two_joined)

abbrev both_taken : Server Cents
both_taken =
    broadcast 1 bob_made (answers made_too.response ∷ [])
      (broadcast 0 ann_made (answers made.response ∷ []) both_read)

-- The first thread delivers to the first client, the second thread to both, and the first goes on.
abbrev told : Server Cents
told = deliver_next 0 ann_made 1 [] (answers made.response ∷ []) (
    deliver_next 1 bob_made 1 [] (answers made_too.response ∷ []) (
      deliver_next 1 bob_made 0 ((bob_made, 1) ∷ []) (answers made_too.response ∷ [])
        (deliver_next 0 ann_made 0 ((ann_made, 1) ∷ []) (answers made.response ∷ []) both_taken)))

abbrev heard : Server Cents
heard = answer 0 made.response [] told

abbrev log : List (Notice Cents)
log =
    joined 0
    ∷ joined 1
    ∷ received 0 (tasks_of made)
    ∷ received 1 (tasks_of made_too)
    ∷ announced 0 ann_made
    ∷ announced 1 bob_made
    ∷ delivered 0 0 ann_made
    ∷ delivered 1 0 bob_made
    ∷ delivered 1 1 bob_made
    ∷ delivered 0 1 ann_made
    ∷ answered 0 made.response
    ∷ []

both_taken-Served :
    Served names 9 new_manager
      (joined 0
        ∷ joined 1
        ∷ received 0 (tasks_of made)
        ∷ received 1 (tasks_of made_too)
        ∷ announced 0 ann_made
        ∷ announced 1 bob_made
        ∷ [])
      both_taken
unfolding on_accept on_read broadcast insert lookup
both_taken-Served =
    Served.broadcasts 1 bob_made (answers made_too.response ∷ [])
      (Served.broadcasts 0 ann_made (answers made.response ∷ [])
        (Served.reads 1 clock "bob" made_too
          (Served.reads 0 clock "ann" made two_joined-Served refl refl makes_ann refl) refl refl
          makes_bob refl)
        refl refl)
      refl refl

heard-Served : Served names 9 new_manager log heard
unfolding on_accept on_read broadcast deliver_next deliver deliveries register_session has insert
    lookup
heard-Served =
    Served.answers 0 made.response []
      (Served.delivers 0 ann_made 1 [] (answers made.response ∷ [])
        (Served.delivers 1 bob_made 1 [] (answers made_too.response ∷ [])
          (Served.delivers 1 bob_made 0 ((bob_made, 1) ∷ []) (answers made_too.response ∷ [])
            (Served.delivers 0 ann_made 0 ((ann_made, 1) ∷ []) (answers made.response ∷ [])
              both_taken-Served refl refl refl)
            refl refl refl)
          refl refl refl)
        refl refl refl)
      refl refl refl

-- The second client is writing the event of its own request, which came to it first.
abbrev second : Writer (Message Cents)
second = queue_write (announcement ann_made) (queue_write (announcement bob_made) new_writer)

second_heard : lookup 1 heard.writers ≡ some second
unfolding on_accept on_read broadcast deliver_next deliver deliveries register_session has insert
    lookup answer
second_heard = refl

Served-IsInOrder_example :
    (done 0 log ++ (handling 0 heard).tasks ≡ asked 0 log)
    × (posted_from 0 1 log ++ underway 1 (handling 0 heard).snapshot ≡ due_from 0 1 false log)
    × IsInOrder (posted 1 log) second
Served-IsInOrder_example = Served-IsInOrder names 9 new_manager 0 1 second heard-Served second_heard

opposite_orders :
    (posted 0 log ≡ announcement ann_made ∷ announcement bob_made ∷ reply made.response ∷ [])
    × (posted 1 log ≡ announcement bob_made ∷ announcement ann_made ∷ [])
opposite_orders = (refl, refl)

due_to_second : due_from 0 1 false log ≡ announcement ann_made ∷ []
due_to_second = refl

Served-IsValid_example : IsValid heard.manager
Served-IsValid_example = Served-IsValid names 9 Cents-IsIeee heard-Served
