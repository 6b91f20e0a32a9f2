-- ===== src/Soap/Faults.antt =====
-- What a fault says of the id that a request names.
use mathlib.Core.List.{append_assoc}
use architecture_course.Prelude.{
  String, ◌<◌, none, ◌++◌, some, true, false, ◌≡◌, arith, All, All-append, ap,
}
use architecture_course.Soap.Task.{text_eq, Text, bytes}
use architecture_course.Soap.File.{until_nul}
use architecture_course.Prelude.Map.{contains}
use architecture_course.Soap.Manager.{TaskManager, get_task, create_task}
use architecture_course.Soap.Server.{
  Nodes, is_blank, about_task, get_node_value, child_or, validate_task_data, handle_get_task,
  handle_update_task, handle_create_task,
}
use architecture_course.Soap.Connection.{
  Document, Parsed, answer_text, create_soap_fault, envelope_start, envelope_end,
}
use architecture_course.Soap.Saved.{until_nul_same}

-- The texts around the message of a fault, and those around the id in the message.
abbrev pub before_id : Text
before_id =
    bytes envelope_start
    ++ (bytes "    <soap:Fault>\n"
        ++ (bytes "      <faultcode>"
            ++ (bytes "SOAP-ENV:Server"
                ++ (bytes "</faultcode>\n"
                    ++ (bytes "      <faultstring>" ++ bytes "Task with ID '")))))

abbrev pub after_id : String → Text
after_id rest =
    bytes rest ++ (bytes "</faultstring>\n" ++ (bytes "    </soap:Fault>\n" ++ bytes envelope_end))

quoted_lem :
    (id : Text) (rest : String)
    → All (λ c. 0 < c) id
    → All (λ c. 0 < c) (bytes rest)
    → create_soap_fault (bytes "SOAP-ENV:Server") (until_nul (about_task id rest))
      ≡ before_id ++ (id ++ after_id rest)
unfolding create_soap_fault
quoted_lem id rest h k =
    let about : All (λ c. 0 < c) (about_task id rest) =
      All-append (λ c. 0 < c) (bytes "Task with ID '") (id ++ bytes rest) (ground arith)
        (All-append (λ c. 0 < c) id (bytes rest) h k) in
    rw (until_nul_same (about_task id rest) about)
      (ap (λ s. before_id ++ s) (append_assoc id (bytes rest) _))

module _ {ℓ} {N : Type ℓ} (nodes : Nodes N) (load : Text → Parsed N) (save : Document → Text) where
  -- A fault quotes the id of the request byte for byte, with whatever mark-up it holds: for ids
  -- without a NUL byte that are not blank, the response to a request that reads an unknown task, to one
  -- that updates an unknown task, and to one that would create a known task from valid data, is the id
  -- between two texts that do not depend on it.
  pub faults-quote :
      (m : TaskManager) (reading updating creating changed created : N)
      → child_or nodes "Task" "tns:Task" updating ≡ some changed
      → child_or nodes "Task" "tns:Task" creating ≡ some created
      → let id_in = λ (node : N). get_node_value nodes node "TaskID" in
        is_blank (id_in reading) ≡ false
        → is_blank (id_in changed) ≡ false
        → All (λ c. 0 < c) (id_in reading)
        → All (λ c. 0 < c) (id_in changed)
        → All (λ c. 0 < c) (id_in created)
        → get_task m (id_in reading) ≡ none
        → get_task m (id_in changed) ≡ none
        → contains (id_in created) m ≡ true
        → validate_task_data (id_in created) (get_node_value nodes created "Title") ≡ none
        → (answer_text nodes load save (handle_get_task nodes m reading).0
            ≡ before_id ++ (id_in reading ++ after_id "' not found"))
          × (answer_text nodes load save (handle_update_task nodes m updating).0
              ≡ before_id ++ (id_in changed ++ after_id "' not found"))
          × (answer_text nodes load save (handle_create_task nodes m creating).0
              ≡ before_id ++ (id_in created ++ after_id "' already exists"))
  unfolding answer_text handle_get_task handle_update_task handle_create_task create_task
  faults-quote m reading updating creating changed created e f b1 b2 h1 h2 h3 g1 g2 known valid = (
    rw (handle_get_task, b1, g1) (quoted_lem _ "' not found" h1 (ground arith)),
    rw (handle_update_task, e, b2, g2) (quoted_lem _ "' not found" h2 (ground arith)),
    rw (handle_create_task, f, valid, known) (quoted_lem _ "' already exists" h3 (ground arith)),
  )
