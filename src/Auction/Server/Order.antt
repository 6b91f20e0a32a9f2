-- ===== src/Auction/Server/Order.antt =====
-- Every session is sent what the log says: nothing is lost or repeated, and the events of one `OnRead`
-- come in its order.
use mathlib.Core.List.{append-nil}
use architecture_course.Prelude.{
  nat_eq, ℕ, some, List, [], ◌∷◌, ◌++◌, true, ◌==◌, ◌&&◌, ◌≡◌, refl, sym, ap, ◌∙◌, subst, arith,
  if◌then◌else◌, has, nat_beq_iff, has-remove_all, Once-remove_all, String,
}
use architecture_course.Prelude.Map.{lookup, insert, contains}
use architecture_course.Prelude.Map.Laws.{lookup-insert}
use architecture_course.Auction.Types.{AuctionManager}
use architecture_course.Auction.Session.{Event, Response, failure, Outcome}
use architecture_course.Auction.Session.WriteQueue.{
  Writer, new_writer, on_write, on_write_error, Posted,
}
use architecture_course.Auction.Server.{
  tasks_of, Message, announcement, reply, Task, Handling, Server, handling, set_handling, idle,
  deliveries, deliver, broadcast, deliver_next, on_accept, on_closed, answer, on_read,
  on_read_invalid, on_written, on_write_failed,
}
use architecture_course.Auction.Server.Delivery.{
  lookup-deliver, has-register_session, Once-register_session, underway-deliveries,
}
use architecture_course.Auction.Server.Hears.{
  Hears, unchanged, Hears-moved, Hears-posted, Hears-joined,
}
use architecture_course.Auction.Server.Hearing.{
  received, Notice, joined, left, announced, delivered, answered, only, posted, underway,
}
use architecture_course.Auction.Server.Heard.{IsHeard, next-IsHeard, handled_on}

module _ {ℓ} {W : Type ℓ} (h i : ℕ) where
  pub announced-IsHeard :
      (session : ℕ) (event : Event W) (tasks : List (Task W)) (log : List (Notice W)) (s : Server W)
      → handling session s ≡ record { snapshot = []; tasks = Task.broadcasts event ∷ tasks }
      → IsHeard h i log s
      → IsHeard h i (log ++ (announced session event ∷ [])) (broadcast session event tasks s)
  unfolding broadcast
  announced-IsHeard session event tasks log s at before =
      next-IsHeard h i log (announced session event) s (broadcast session event tasks s) before
        before.once before.fresh refl (unchanged (posted i log) _ before.hears)
        (handled_on h i (λ x. underway i x.snapshot) session _
          (record { snapshot = deliveries event s.sessions; tasks = tasks }) _ _ s at
          (λ same.
            ap (λ b. only (b && has i s.sessions) (announcement event)) same
            ∙ sym (underway-deliveries event i s.sessions before.once))
          (λ other. (ap (λ b. only (b && has i s.sessions) (announcement event)) other, refl)))
        (handled_on h i (λ x. x.tasks) session _
          (record { snapshot = deliveries event s.sessions; tasks = tasks }) _ _ s at
          (λ same. append-nil _ ∙ ap (λ b. only b (Task.broadcasts event) ++ tasks) (sym same))
          (λ other. (refl, ap (λ b. only b (Task.broadcasts event)) other)))

  pub delivered-IsHeard :
      (session : ℕ) (event : Event W) (receiver : ℕ) (snapshot : List (Event W × ℕ))
      (tasks : List (Task W)) (log : List (Notice W)) (s : Server W)
      → contains receiver s.writers ≡ true
      → handling session s ≡ record { snapshot = (event, receiver) ∷ snapshot; tasks = tasks }
      → IsHeard h i log s
      → IsHeard h i
          (log ++ (delivered session receiver event ∷ []))
          (deliver_next session event receiver snapshot tasks s)
  unfolding deliver_next
  delivered-IsHeard session event receiver snapshot tasks log s there at before =
      let found = lookup-deliver (announcement event) i receiver s.writers in
      next-IsHeard h i log (delivered session receiver event) s
        (deliver_next session event receiver snapshot tasks s) before before.once
        (λ late. ground (arith, found, before.fresh late)) refl
        (subst (Hears (posted i log ++ only (receiver == i) (announcement event))) (sym found) (
          Hears-posted (announcement event) (receiver == i) _ _
            (λ same. ap (λ k. contains k s.writers) (sym ((nat_beq_iff receiver i).0 same)) ∙ there)
            before.hears))
        (handled_on h i (λ x. underway i x.snapshot) session _
          (record { snapshot = snapshot; tasks = tasks }) _ _
          (record s { writers = deliver (announcement event) receiver s.writers }) at
          (λ same.
            append-nil _
            ∙ ap (λ b. only (b && receiver == i) (announcement event) ++ underway i snapshot)
                (sym same))
          (λ other. (refl, ap (λ b. only (b && receiver == i) (announcement event)) other)))
        (handled_on h i (λ x. x.tasks) session _ (record { snapshot = snapshot; tasks = tasks }) []
          [] (record s { writers = deliver (announcement event) receiver s.writers }) at
          (λ same. append-nil _) (λ other. (refl, refl)))

  pub answered-IsHeard :
      (session : ℕ) (response : Response W) (tasks : List (Task W)) (log : List (Notice W))
      (s : Server W)
      → contains session s.writers ≡ true
      → handling session s ≡ record { snapshot = []; tasks = Task.answers response ∷ tasks }
      → IsHeard h i log s
      → IsHeard h i (log ++ (answered session response ∷ [])) (answer session response tasks s)
  unfolding answer
  answered-IsHeard session response tasks log s there at before =
      let found = lookup-deliver (reply response) i session s.writers in
      next-IsHeard h i log (answered session response) s (answer session response tasks s) before
        before.once (λ late. ground (arith, found, before.fresh late)) refl
        (subst (Hears (posted i log ++ only (session == i) (reply response))) (sym found) (
          Hears-posted (reply response) (session == i) _ _
            (λ same. ap (λ k. contains k s.writers) (sym ((nat_beq_iff session i).0 same)) ∙ there)
            before.hears))
        (handled_on h i (λ x. underway i x.snapshot) session _
          (record { snapshot = []; tasks = tasks }) _ _
          (record s { writers = deliver (reply response) session s.writers }) at
          (λ same. sym (append-nil _))
          (λ other.
            let none_for = ap (λ b. only (b && session == i) (reply response)) other in
            (none_for, none_for)))
        (handled_on h i (λ x. x.tasks) session _ (record { snapshot = []; tasks = tasks }) _ _
          (record s { writers = deliver (reply response) session s.writers }) at
          (λ same. append-nil _ ∙ ap (λ b. only b (Task.answers response) ++ tasks) (sym same))
          (λ other. (refl, ap (λ b. only b (Task.answers response)) other)))

  pub joined-IsHeard :
      (log : List (Notice W)) (s : Server W)
      → IsHeard h i log s
      → IsHeard h i (log ++ (joined s.next_session ∷ [])) (on_accept s)
  unfolding on_accept
  joined-IsHeard log s before =
      let found = lookup-insert s.next_session i new_writer s.writers in
      next-IsHeard h i log (joined s.next_session) s (on_accept s) before
        (Once-register_session s.next_session s.sessions before.once)
        (λ late. ground (arith, found, before.fresh))
        (has-register_session i s.next_session s.sessions)
        (subst (Hears (posted i log ++ [])) (sym found) (
          Hears-joined (s.next_session == i) _ _
            (λ same. before.fresh (ground (arith, nat_beq_iff s.next_session i))) before.hears))
        (append-nil _) (append-nil _)

  pub left-IsHeard :
      (session : ℕ) (log : List (Notice W)) (s : Server W)
      → IsHeard h i log s
      → IsHeard h i (log ++ (left session ∷ [])) (on_closed session s)
  unfolding on_closed
  left-IsHeard session log s before =
      next-IsHeard h i log (left session) s (on_closed session s) before
        (Once-remove_all session s.sessions before.once) before.fresh
        (has-remove_all i session s.sessions) (unchanged (posted i log) _ before.hears)
        (append-nil _) (append-nil _)

  -- A request is read: its tasks are set, and nothing is underway before them.
  ready-IsHeard :
      (session : ℕ) (m : AuctionManager W) (tasks : List (Task W)) (log : List (Notice W))
      (s : Server W)
      → handling session s ≡ idle
      → IsHeard h i log s
      → IsHeard h i (log ++ (received session tasks ∷ [])) (
          set_handling session (record { snapshot = []; tasks = tasks }) (record s { manager = m }))
  ready-IsHeard session m tasks log s at before =
      let work : Handling W = record { snapshot = []; tasks = tasks } in
      let managed = record s { manager = m } in
      next-IsHeard h i log (received session tasks) s (set_handling session work managed) before
        before.once before.fresh refl (unchanged (posted i log) _ before.hears)
        (handled_on h i (λ x. underway i x.snapshot) session _ work [] [] managed at (λ same. refl)
          (λ other. (refl, refl)))
        (handled_on h i (λ x. x.tasks) session _ work _ _ managed at
          (λ same. ap (λ b. if b then tasks else []) same)
          (λ other. (ap (λ b. if b then tasks else []) other, refl)))

  pub read-IsHeard :
      (session : ℕ) (o : Outcome W) (log : List (Notice W)) (s : Server W)
      → handling session s ≡ idle
      → IsHeard h i log s
      → IsHeard h i (log ++ (received session (tasks_of o) ∷ [])) (on_read session o s)
  unfolding on_read
  read-IsHeard session o log s at before =
      ready-IsHeard session o.manager (tasks_of o) log s at before

  pub misread-IsHeard :
      (session : ℕ) (what : String) (log : List (Notice W)) (s : Server W)
      → handling session s ≡ idle
      → IsHeard h i log s
      → IsHeard h i
          (log ++ (received session (Task.answers (failure "unknown" what) ∷ []) ∷ []))
          (on_read_invalid session what s)
  unfolding on_read_invalid
  misread-IsHeard session what log s at before =
      ready-IsHeard session s.manager (Task.answers (failure "unknown" what) ∷ []) log s at before

  -- A write that completes or fails changes only its own session, and nothing of what was posted.
  moved-IsHeard :
      (session : ℕ) (w w' : Writer (Message W)) (log : List (Notice W)) (s : Server W)
      → ((ps : List (Message W)) → Posted ps w → Posted ps w')
      → lookup session s.writers ≡ some w
      → IsHeard h i log s
      → IsHeard h i log (record s { writers = insert session w' s.writers })
  moved-IsHeard session w w' log s move there before =
      let found = lookup-insert session i w' s.writers in
      let same_session : (session == i) ≡ true → lookup i s.writers ≡ some w =
        λ same. ap (λ k. lookup k s.writers) (sym ((nat_beq_iff session i).0 same)) ∙ there in
      record {
        once = before.once;
        fresh = λ late. ground (arith, found, before.fresh late, same_session);
        member = before.member;
        hears =
            subst (Hears (posted i log)) (sym found)
              (Hears-moved w w' (session == i) _ _ move same_session before.hears);
        sent = before.sent;
        turns = before.turns;
      }

  pub written-IsHeard :
      (session : ℕ) (message : Message W) (w : Writer (Message W)) (log : List (Notice W))
      (s : Server W)
      → lookup session s.writers ≡ some w
      → w.in_flight ≡ some message
      → IsHeard h i log s
      → IsHeard h i log (on_written session message w s)
  unfolding on_written
  written-IsHeard session message w log s there pending before =
      moved-IsHeard session w (on_write message w) log s
        (λ ps r. Posted.completes message r pending) there before

  pub failed-IsHeard :
      (session : ℕ) (message : Message W) (w : Writer (Message W)) (log : List (Notice W))
      (s : Server W)
      → lookup session s.writers ≡ some w
      → w.in_flight ≡ some message
      → IsHeard h i log s
      → IsHeard h i (log ++ (left session ∷ [])) (on_write_failed session w s)
  unfolding on_write_failed on_closed
  failed-IsHeard session message w log s there pending before =
      left-IsHeard session log (record s { writers = insert session (on_write_error w) s.writers })
        (moved-IsHeard session w (on_write_error w) log s (λ ps r. Posted.fails message r pending)
          there before)
