-- ===== src/Soap/Tests.antt =====
-- Two tasks, a request that creates one, and the theorems at them.
use architecture_course.Prelude.{
  nat_eq, string_eq, ℕ, String, some, [], ◌∷◌, ◌≡◌, refl, arith, ◌==◌, if◌then◌else◌,
}
use architecture_course.Prelude.Map.{Map, lookup, insert, Distinct}
use architecture_course.Prelude.Map.Laws.{Each, Each-insert, Each-nil}
use architecture_course.Soap.Task.{text_eq, text_beq, Text, bytes, in_progress, completed, Task}
use architecture_course.Soap.Manager.{TaskManager}
use architecture_course.Soap.File.{status_number, status_of, load_from_file, save_to_file}
use architecture_course.Soap.Saved.{IsStored, load_from_file-save_to_file}
use architecture_course.Soap.Server.{Nodes, process_soap_message}
use architecture_course.Soap.Serving.{IsServed, process_soap_message-IsServed}

abbrev read : Task
read = record {
  task_id = bytes "1";
  title = bytes "read";
  description = bytes "";
  status = completed;
}

abbrev prove : Task
prove = record {
  task_id = bytes "2";
  title = bytes "prove";
  description = bytes "all of it";
  status = in_progress;
}

abbrev tasks : TaskManager
tasks = (bytes "1", read) ∷ (bytes "2", prove) ∷ []

tasks-Distinct : Distinct tasks
unfolding lookup text_beq
tasks-Distinct = (refl, (refl, tt))

read-IsStored : IsStored (bytes "1") read
unfolding status_number status_of
read-IsStored = record {
  id = refl;
  task_id = record { short = omega arith; no_nul = ground arith };
  title = record { short = omega arith; no_nul = ground arith };
  description = record { short = omega arith; no_nul = tt };
  status = record { short = omega arith; same = refl };
}

prove-IsStored : IsStored (bytes "2") prove
unfolding status_number status_of
prove-IsStored = record {
  id = refl;
  task_id = record { short = omega arith; no_nul = ground arith };
  title = record { short = omega arith; no_nul = ground arith };
  description = record { short = omega arith; no_nul = ground arith };
  status = record { short = omega arith; same = refl };
}

tasks-IsStored : Each IsStored tasks
unfolding insert text_beq
tasks-IsStored =
    Each-insert (bytes "2") prove prove-IsStored
      (Each-insert (bytes "1") read read-IsStored Each-nil)

load_from_file-save_to_file_example :
    (loaded : TaskManager) × (load_from_file (some (save_to_file tasks)) ≡ some loaded)
    × ((id : Text) → lookup id loaded ≡ lookup id tasks)
load_from_file-save_to_file_example =
    load_from_file-save_to_file tasks tasks-Distinct tasks-IsStored (omega arith)

-- A document that asks to create the task "3", node by node.
abbrev edges : ℕ → Map String ℕ
edges n =
    if n == 0
    then ("soap:Envelope", 1) ∷ []
    else if n == 1
    then ("soap:Body", 2) ∷ []
    else if n == 3
    then ("tns:Task", 4) ∷ []
    else if n == 4
    then ("TaskID", 5) ∷ ("tns:Title", 6) ∷ []
    else []

abbrev document : Nodes ℕ
document = record {
  child = λ key n. lookup key (edges n);
  name = λ n. if n == 3 then "CreateTaskRequest" else "";
  text = λ n. if n == 5 then bytes "3" else if n == 6 then bytes "rest" else [];
  children = λ n. if n == 2 then 3 ∷ [] else [];
}

process_soap_message-IsServed_example : IsServed tasks (process_soap_message document tasks 0)
process_soap_message-IsServed_example = process_soap_message-IsServed document tasks 0
