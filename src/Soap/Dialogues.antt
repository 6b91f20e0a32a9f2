-- ===== src/Soap/Dialogues.antt =====
-- A connection of five requests, an id with mark-up, calls of two clients, and the theorems at them.
use architecture_course.Prelude.{
  List, nat_eq, string_eq, ℕ, String, none, [], ◌∷◌, ◌++◌, true, false, ◌≡◌, refl, arith, ◌==◌,
  if◌then◌else◌,
}
use architecture_course.Prelude.Map.{Map, lookup, insert, erase}
use architecture_course.Soap.Task.{Task, text_eq, text_beq, text_beq_iff, Text, bytes, fresh}
use architecture_course.Soap.Manager.{TaskManager, create_task, get_task, delete_task}
use architecture_course.Soap.File.{until_nul}
use architecture_course.Soap.Server.{
  Nodes, handle_get_task, handle_update_task, handle_create_task, validate_task_data,
  process_soap_message, process_children, handle_delete_task,
}
use architecture_course.Soap.Connection.{
  Document, Parsed, parsed, broken, get, post, other_method, HttpRequest, Exchange, answer_text,
  handle_session, respond, handle_soap_request, parse_soap_request,
}
use architecture_course.Soap.Connected.{IsConnection, handle_session-IsConnection}
use architecture_course.Soap.Interleaved.{creates, updates, call, view, calls_commute}
use architecture_course.Soap.Faults.{before_id, after_id, faults-quote}

-- A document that deletes the task "1" (from node 0), a task to read, and a task to create or update.
abbrev edges : ℕ → Map String ℕ
edges n =
    if n == 0
    then ("soap:Envelope", 1) ∷ []
    else if n == 1
    then ("soap:Body", 2) ∷ []
    else if n == 3
    then ("TaskID", 4) ∷ []
    else if n == 5
    then ("TaskID", 6) ∷ []
    else if n == 7
    then ("tns:Task", 5) ∷ []
    else if n == 8
    then ("Task", 9) ∷ []
    else if n == 9
    then ("TaskID", 4) ∷ ("Title", 4) ∷ []
    else []

abbrev document : Nodes ℕ
document = record {
  child = λ key n. lookup key (edges n);
  name = λ n. if n == 3 then "DeleteTaskRequest" else "";
  text = λ n. if n == 4 then bytes "1" else if n == 6 then bytes "</faultstring>" else [];
  children = λ n. if n == 2 then 3 ∷ [] else [];
}

-- The text "delete" is the document, every other is broken; the text of a document is not looked at.
abbrev load : Text → Parsed ℕ
load s = if s == bytes "delete" then parsed 0 else broken (bytes "no document")

abbrev save : Document → Text
save d = bytes d.root

abbrev tasks : TaskManager
tasks =
    (
      bytes "1",
      record { task_id = bytes "1"; title = bytes "read"; description = []; status = fresh },
    )
    ∷ []

abbrev get_wsdl : HttpRequest
get_wsdl = record { method = get; version = 11; body = []; keep_alive = true }

abbrev put_text : HttpRequest
put_text = record { method = other_method; version = 10; body = []; keep_alive = true }

abbrev post_broken : HttpRequest
post_broken = record { method = post; version = 11; body = bytes "dele"; keep_alive = true }

abbrev post_delete : HttpRequest
post_delete = record { method = post; version = 11; body = bytes "delete"; keep_alive = false }

abbrev exchanges : List Exchange
exchanges =
    record { request = get_wsdl; written = true }
    ∷ record { request = put_text; written = true }
    ∷ record { request = post_broken; written = true }
    ∷ record { request = post_delete; written = true }
    ∷ record { request = post_broken; written = true }
    ∷ []

-- The last request is not read, and the task is gone.
dialogue_ends :
    ((handle_session document load save none tasks exchanges).shut_down ≡ true)
    × ((handle_session document load save none tasks exchanges).tasks ≡ [])
unfolding handle_session respond handle_soap_request parse_soap_request text_beq until_nul
    process_soap_message lookup process_children handle_delete_task delete_task erase
dialogue_ends = (refl, refl)

handle_session-IsConnection_example :
    IsConnection document load save exchanges tasks
      (handle_session document load save none tasks exchanges)
handle_session-IsConnection_example =
    handle_session-IsConnection document load save none tasks exchanges

faults-quote_example :
    (answer_text document load save (handle_get_task document tasks 5).0
      ≡ before_id ++ (bytes "</faultstring>" ++ after_id "' not found"))
    × (answer_text document load save (handle_update_task document tasks 7).0
        ≡ before_id ++ (bytes "</faultstring>" ++ after_id "' not found"))
    × (answer_text document load save (handle_create_task document tasks 8).0
        ≡ before_id ++ (bytes "1" ++ after_id "' already exists"))
unfolding lookup get_task validate_task_data text_beq
faults-quote_example =
    faults-quote document load save tasks 5 7 8 5 9 refl refl refl refl (ground arith)
      (ground arith) (ground arith) refl refl refl refl

-- One client replaces the task "1" while another creates the task "2".
abbrev second : Task
second = record { task_id = bytes "2"; title = bytes "prove"; description = []; status = fresh }

abbrev replaced : Task
replaced = record { task_id = bytes "1"; title = bytes "read on"; description = []; status = fresh }

calls_commute_example :
    let c = updates replaced in
    let d = creates second in
    ((call c (call d tasks).1).0 ≡ (call c tasks).0)
    × ((call d (call c tasks).1).0 ≡ (call d tasks).0)
    × (view (call c (call d tasks).1).1 ≡ view (call d (call c tasks).1).1)
calls_commute_example =
    calls_commute (updates replaced) (creates second) tasks
      (λ e. ground (arith, text_beq_iff (bytes "1") (bytes "2"), e))

-- The map is iterated in another order, which the view forgets.
made_in_turn :
    (call (creates replaced) (call (creates second) []).1).1
    ≡ (bytes "2", second) ∷ (bytes "1", replaced) ∷ []
unfolding call create_task insert lookup text_beq
made_in_turn = refl
