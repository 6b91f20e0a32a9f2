-- ===== src/Soap/Server.antt =====
-- soap_server.cpp: `ProcessSOAPMessage` and the four operations. The XML library is a parameter; a
-- response is the data that the source writes as XML, or the text of a fault. A `std::runtime_error`
-- is the fault that `HandleSOAPRequest` makes of it.
use Prim.Native.String.{String, ◌++◌ as str_append}
use architecture_course.Prelude.{
  string_eq, Option, none, some, List, [], ◌∷◌, ◌++◌, Bool, true, false, ◌||◌, ◌==◌, if◌then◌else◌,
  ltb, length,
}
use architecture_course.Soap.Task.{Text, bytes, fresh, string_to_task_status, Task}
use architecture_course.Soap.Manager.{TaskManager, create_task, get_task, update_task, delete_task}

-- `pugi::xml_node`: `child`, `name`, `text().as_string()`, and the children in order.
pub record Nodes {ℓ} (N : Type ℓ) : Type ℓ where
  pub child : String → N → Option N
  pub name : N → String
  pub text : N → Text
  pub children : N → List N

pub data Answer : Type 0 where
  task_response : Task → Answer
  delete_response : Bool → Answer
  fault : Text → Answer

abbrev pub is_blank : Text → Bool
is_blank [] = true
is_blank (c ∷ s) = false

abbrev pub or_text : Text → Text → Text
or_text [] existing = existing
or_text (c ∷ s) existing = c ∷ s

-- "Task with ID '" + taskId + "' ..."
abbrev pub about_task : Text → String → Text
about_task task_id rest = bytes "Task with ID '" ++ (task_id ++ bytes rest)

-- The message of the exception, if there is one.
unfoldable pub validate_task_data : Text → Text → Option Text
validate_task_data task_id title =
    if is_blank task_id
    then some (bytes "TaskID is required")
    else if is_blank title
    then some (bytes "Title is required")
    else if ltb 100 (length task_id)
    then some (bytes "TaskID is too long (max 100 characters)")
    else if ltb 200 (length title)
    then some (bytes "Title is too long (max 200 characters)")
    else none

module _ {ℓ} {N : Type ℓ} (nodes : Nodes N) where
  open nodes use {child, name, text, children}

  -- A child under one name or else under the other.
  abbrev pub child_or : String → String → N → Option N
  child_or first second parent = elim (child first parent) [
    | none ↦ child second parent
    | some node ↦ some node
  ]

  abbrev pub get_node_value : N → String → Text
  get_node_value parent node_name = elim (child_or node_name (str_append "tns:" node_name) parent) [
    | none ↦ []
    | some node ↦ text node
  ]

  unfoldable pub handle_create_task : TaskManager → N → Answer × TaskManager
  handle_create_task m request = elim (child_or "Task" "tns:Task" request) [
    | none ↦ (fault (bytes "Task element not found"), m)
    | some node ↦
        let task_id = get_node_value node "TaskID" in
        let title = get_node_value node "Title" in
        let status_text = get_node_value node "Status" in
        let task : Task = record {
          task_id = task_id;
          title = title;
          description = get_node_value node "Description";
          status = if is_blank status_text then fresh else string_to_task_status status_text;
        } in
        elim (validate_task_data task_id title) [
          | some message ↦ (fault message, m)
          | none ↦
              let (created, after) = create_task m task in
              if created
              then (task_response task, after)
              else (fault (about_task task_id "' already exists"), after)
        ]
  ]

  unfoldable pub handle_get_task : TaskManager → N → Answer × TaskManager
  handle_get_task m request =
      let task_id = get_node_value request "TaskID" in
      if is_blank task_id
      then (fault (bytes "TaskID is required"), m)
      else elim (get_task m task_id) [
        | none ↦ (fault (about_task task_id "' not found"), m)
        | some task ↦ (task_response task, m)
      ]

  unfoldable pub handle_update_task : TaskManager → N → Answer × TaskManager
  handle_update_task m request = elim (child_or "Task" "tns:Task" request) [
    | none ↦ (fault (bytes "Task element not found"), m)
    | some node ↦
        let task_id = get_node_value node "TaskID" in
        let status_text = get_node_value node "Status" in
        if is_blank task_id
        then (fault (bytes "TaskID is required"), m)
        else elim (get_task m task_id) [
          | none ↦ (fault (about_task task_id "' not found"), m)
          | some existing ↦
              let task : Task = record {
                task_id = task_id;
                title = or_text (get_node_value node "Title") existing.title;
                description = or_text (get_node_value node "Description") existing.description;
                status =
                    if is_blank status_text
                    then existing.status
                    else string_to_task_status status_text;
              } in
              let (updated, after) = update_task m task in
              if updated then (task_response task, after) else (
                fault (bytes "Failed to update task with ID '" ++ (task_id ++ bytes "'")),
                after,
              )
        ]
  ]

  unfoldable pub handle_delete_task : TaskManager → N → Answer × TaskManager
  handle_delete_task m request =
      let task_id = get_node_value request "TaskID" in
      if is_blank task_id
      then (fault (bytes "TaskID is required"), m)
      else let (success, after) = delete_task m task_id in (delete_response success, after)

  -- The loop over the children of the body.
  unfoldable pub process_children : TaskManager → List N → Answer × TaskManager
  process_children m [] = (fault (bytes "Unknown SOAP operation"), m)
  process_children m (node ∷ rest) =
      let others = process_children m rest in
      if name node == "CreateTaskRequest" || name node == "tns:CreateTaskRequest"
      then handle_create_task m node
      else if name node == "GetTaskRequest" || name node == "tns:GetTaskRequest"
      then handle_get_task m node
      else if name node == "UpdateTaskRequest" || name node == "tns:UpdateTaskRequest"
      then handle_update_task m node
      else if name node == "DeleteTaskRequest" || name node == "tns:DeleteTaskRequest"
      then handle_delete_task m node
      else others

  unfoldable pub process_soap_message : TaskManager → N → Answer × TaskManager
  process_soap_message m document = elim (child_or "soap:Envelope" "Envelope" document) [
    | none ↦ (fault (bytes "SOAP Envelope not found"), m)
    | some envelope ↦ elim (child_or "soap:Body" "Body" envelope) [
      | none ↦ (fault (bytes "SOAP Body not found"), m)
      | some body ↦ process_children m (children body)
    ]
  ]
