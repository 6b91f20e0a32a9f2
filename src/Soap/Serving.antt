-- ===== src/Soap/Serving.antt =====
-- What the operations keep of the tasks, and the figures of `GetStatistics`.
use architecture_course.Prelude.{
  string_eq, Option, none, some, List, [], ◌∷◌, Bool, true, false, ◌≡◌, refl, Bool-cases,
  Option-cases, inl, inr, if◌then◌else◌,
}
use architecture_course.Prelude.Map.{insert, erase, contains, Distinct}
use architecture_course.Prelude.Map.Laws.{
  Each, Each-insert, Each-erase, insert-Distinct, erase-Distinct,
}
use architecture_course.Soap.Task.{text_eq, Text, Task}
use architecture_course.Soap.Manager.{TaskManager, create_task, get_task, update_task, delete_task}
use architecture_course.Soap.Server.{
  is_blank, validate_task_data, about_task, get_node_value, child_or, Nodes, Answer, task_response,
  delete_response, fault, handle_create_task, handle_get_task, handle_update_task,
  handle_delete_task, process_children, process_soap_message,
}

-- No id repeats, and every task is stored under its id.
pub record IsKeyed (m : TaskManager) : Type 0 where
  pub distinct : Distinct m
  pub id : Each (λ key (task : Task). task.task_id ≡ key) m

put-IsKeyed : (m : TaskManager) (task : Task) → IsKeyed m → IsKeyed (insert task.task_id task m)
put-IsKeyed m task h = record {
  distinct = insert-Distinct task.task_id task m h.distinct;
  id = Each-insert task.task_id task refl h.id;
}

erase-IsKeyed : (m : TaskManager) (id : Text) → IsKeyed m → IsKeyed (erase id m)
erase-IsKeyed m id h = record { distinct = erase-Distinct id m h.distinct; id = Each-erase id h.id }

-- A fault leaves the tasks as they were, and no operation spoils the ids.
pub record IsServed (m : TaskManager) (r : Answer × TaskManager) : Type 0 where
  pub keyed : IsKeyed m → IsKeyed r.1
  pub faulty : (message : Text) → r.0 ≡ fault message → r.1 ≡ m

kept-IsServed : (m : TaskManager) (a : Answer) → IsServed m (a, m)
kept-IsServed m a = record { keyed = λ h. h; faulty = λ message e. refl }

task_response-IsServed :
    (m after : TaskManager) (task : Task)
    → (IsKeyed m → IsKeyed after)
    → IsServed m (task_response task, after)
task_response-IsServed m after task k = record { keyed = k; faulty = λ message e. cc }

delete_response-IsServed :
    (m after : TaskManager) (b : Bool)
    → (IsKeyed m → IsKeyed after)
    → IsServed m (delete_response b, after)
delete_response-IsServed m after b k = record { keyed = k; faulty = λ message e. cc }

if-IsServed :
    (m : TaskManager) (b : Bool) (x y : Answer × TaskManager)
    → IsServed m x
    → IsServed m y
    → IsServed m (if b then x else y)
if-IsServed m true x y p q = p
if-IsServed m false x y p q = q

create_task-IsServed :
    (m : TaskManager) (task : Task) (message : Text)
    → IsServed m (
        if (create_task m task).0
        then (task_response task, (create_task m task).1)
        else (fault message, (create_task m task).1))
unfolding create_task
create_task-IsServed m task message = elim (Bool-cases (contains task.task_id m)) [
  | inl b ↦ rw b (kept-IsServed m _)
  | inr b ↦ rw b (task_response-IsServed m _ task (put-IsKeyed m task))
]

update_task-IsServed :
    (m : TaskManager) (task : Task) (message : Text)
    → IsServed m (
        if (update_task m task).0
        then (task_response task, (update_task m task).1)
        else (fault message, (update_task m task).1))
unfolding update_task
update_task-IsServed m task message = elim (Bool-cases (contains task.task_id m)) [
  | inr b ↦ rw b (kept-IsServed m _)
  | inl b ↦ rw b (task_response-IsServed m _ task (put-IsKeyed m task))
]

delete_task-IsServed :
    (m : TaskManager) (id : Text)
    → IsServed m (delete_response (delete_task m id).0, (delete_task m id).1)
unfolding delete_task
delete_task-IsServed m id = elim (Bool-cases (contains id m)) [
  | inr b ↦ rw b (kept-IsServed m _)
  | inl b ↦ rw b (delete_response-IsServed m _ true (erase-IsKeyed m id))
]

module _ {ℓ} {N : Type ℓ} (nodes : Nodes N) (m : TaskManager) where
  handle_create_task-IsServed : (request : N) → IsServed m (handle_create_task nodes m request)
  unfolding handle_create_task
  handle_create_task-IsServed request =
      elim (Option-cases (child_or nodes "Task" "tns:Task" request)) [
        | inl e ↦ rw (e, handle_create_task) (kept-IsServed m _)
        | inr (node, e) ↦
            let task_id = get_node_value nodes node "TaskID" in
            let title = get_node_value nodes node "Title" in
            elim (Option-cases (validate_task_data task_id title)) [
              | inl f ↦ rw (e, handle_create_task, f) (create_task-IsServed m _ _)
              | inr (message, f) ↦ rw (e, handle_create_task, f) (kept-IsServed m _)
            ]
      ]

  handle_get_task-IsServed : (request : N) → IsServed m (handle_get_task nodes m request)
  unfolding handle_get_task
  handle_get_task-IsServed request =
      let task_id = get_node_value nodes request "TaskID" in
      if-IsServed m (is_blank task_id) _ _ (kept-IsServed m _) (found (get_task m task_id) task_id)
    where
      found :
          (o : Option Task) (task_id : Text)
          → IsServed m (elim o [
            | none ↦ (fault (about_task task_id "' not found"), m)
            | some task ↦ (task_response task, m)
          ])
      found none task_id = kept-IsServed m _
      found (some task) task_id = kept-IsServed m _

  handle_update_task-IsServed : (request : N) → IsServed m (handle_update_task nodes m request)
  unfolding handle_update_task
  handle_update_task-IsServed request =
      elim (Option-cases (child_or nodes "Task" "tns:Task" request)) [
        | inl e ↦ rw (e, handle_update_task) (kept-IsServed m _)
        | inr (node, e) ↦
            let task_id = get_node_value nodes node "TaskID" in
            elim (Option-cases (get_task m task_id)) [
              | inl f ↦
                  rw (e, handle_update_task, f)
                    (if-IsServed m (is_blank task_id) _ _ (kept-IsServed m _) (kept-IsServed m _))
              | inr (existing, f) ↦
                  rw (e, handle_update_task, f)
                    (if-IsServed m (is_blank task_id) _ _ (kept-IsServed m _)
                      (update_task-IsServed m _ _))
            ]
      ]

  handle_delete_task-IsServed : (request : N) → IsServed m (handle_delete_task nodes m request)
  unfolding handle_delete_task
  handle_delete_task-IsServed request =
      let task_id = get_node_value nodes request "TaskID" in
      if-IsServed m (is_blank task_id) _ _ (kept-IsServed m _) (delete_task-IsServed m task_id)

  process_children-IsServed : (ns : List N) → IsServed m (process_children nodes m ns)
  unfolding process_children
  process_children-IsServed [] = kept-IsServed m _
  process_children-IsServed (node ∷ rest) = if-IsServed m _ _ _ (handle_create_task-IsServed node) (
      if-IsServed m _ _ _ (handle_get_task-IsServed node) (
        if-IsServed m _ _ _ (handle_update_task-IsServed node) (
          if-IsServed m _ _ _ (handle_delete_task-IsServed node) (process_children-IsServed rest))))

  -- A message that is answered by a fault leaves the tasks as they were; and whatever the answer, if no
  -- id repeated and every task was stored under its id before, that holds after.
  pub process_soap_message-IsServed :
      (document : N) → IsServed m (process_soap_message nodes m document)
  unfolding process_soap_message
  process_soap_message-IsServed document =
      elim (Option-cases (child_or nodes "soap:Envelope" "Envelope" document)) [
        | inl e ↦ rw (e, process_soap_message) (kept-IsServed m _)
        | inr (envelope, e) ↦ elim (Option-cases (child_or nodes "soap:Body" "Body" envelope)) [
          | inl f ↦ rw (e, process_soap_message, f) (kept-IsServed m _)
          | inr (body, f) ↦
              rw (e, process_soap_message, f) (process_children-IsServed (nodes.children body))
        ]
      ]
