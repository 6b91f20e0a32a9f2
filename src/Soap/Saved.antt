-- ===== src/Soap/Saved.antt =====
-- The tasks that are loaded are the tasks that were saved.
use native.Mathlib.Nat.{pow-suc}
use mathlib.Core.List.{append_assoc}
use architecture_course.Prelude.{
  ℕ, zero, suc, ◌+◌, ◌*◌, ◌/◌, ◌%◌, ◌^◌, ◌<◌, Option, none, some, List, [], ◌∷◌, ◌++◌, ◌≡◌, refl,
  sym, ap, ◌∙◌, arith, length, All,
}
use architecture_course.Prelude.Map.{lookup, insert, values, Distinct, length-values}
use architecture_course.Prelude.Map.Laws.{Each-map, Each, lookup-insert, beq_refl}
use architecture_course.Soap.Task.{text_eq, Text, text_beq_iff, TaskStatus, Task}
use architecture_course.Soap.Manager.{TaskManager}
use architecture_course.Soap.File.{
  write_number, read_number, read_bytes, until_nul, write_string, read_string, status_number,
  status_of, write_task, read_task, write_tasks, read_tasks, save_to_file, load_from_file,
}

read_number-write_number :
    (width n : ℕ) (rest : Text)
    → n < 256 ^ width
    → read_number width (write_number width n ++ rest) ≡ some (n, rest)
unfolding read_number write_number
read_number-write_number zero n rest h =
    let e : 0 ≡ n = omega arith in ap (λ (k : ℕ). some (k, rest)) e
read_number-write_number (suc width) n rest h =
    let power = pow-suc 256 width in
    let below : n / 256 < 256 ^ width = omega (arith, power, h) in
    let sum : n % 256 + 256 * (n / 256) ≡ n = omega arith in
    rw (read_number-write_number width (n / 256) rest below) (ap (λ (k : ℕ). some (k, rest)) sum)

read_bytes-append : (s rest : Text) → read_bytes (length s) (s ++ rest) ≡ some (s, rest)
unfolding read_bytes
read_bytes-append [] rest = refl
read_bytes-append (c ∷ s) rest = rw (read_bytes-append s rest) refl

pub until_nul_same : (s : Text) → All (λ c. 0 < c) s → until_nul s ≡ s
unfolding until_nul
until_nul_same [] h = refl
until_nul_same (c ∷ s) h = ground (arith, until_nul_same s h.1)

-- A text that the file holds: short enough for a `size_t`, and without a NUL.
pub record IsText (s : Text) : Type 0 where
  pub short : length s < 256 ^ 8
  pub no_nul : All (λ c. 0 < c) s

-- An enumerator, or another number of a 32-bit `int`.
pub record IsNumbered (status : TaskStatus) : Type 0 where
  pub short : status_number status < 256 ^ 4
  pub same : status_of (status_number status) ≡ status

pub record IsStored (key : Text) (task : Task) : Type 0 where
  pub id : task.task_id ≡ key
  pub task_id : IsText task.task_id
  pub title : IsText task.title
  pub description : IsText task.description
  pub status : IsNumbered task.status

read_string-write_string :
    (s rest : Text) → IsText s → read_string (write_string s ++ rest) ≡ some (s, rest)
unfolding read_string write_string
read_string-write_string s rest h =
    rw
      (
        append_assoc (write_number 8 (length s)) s rest,
        read_number-write_number 8 (length s) (s ++ rest) h.short,
        read_bytes-append s rest,
        until_nul_same s h.no_nul,
      )
      refl

-- The parts of a written task one after the other.
written_task :
    (task : Task) (rest : Text)
    → write_task task ++ rest
      ≡ write_string task.task_id
        ++ (write_string task.title
            ++ (write_string task.description
                ++ (write_number 4 (status_number task.status) ++ rest)))
unfolding write_task
written_task task rest =
    let number = write_number 4 (status_number task.status) in
    append_assoc (write_string task.task_id) _ rest
    ∙ ap (λ s. write_string task.task_id ++ s)
        (append_assoc (write_string task.title) _ rest
          ∙ ap (λ s. write_string task.title ++ s)
              (append_assoc (write_string task.description) number rest))

read_task-write_task :
    (key : Text) (task : Task) (rest : Text)
    → IsStored key task
    → read_task (write_task task ++ rest) ≡ some (task, rest)
unfolding read_task
read_task-write_task key task rest h =
    let tail3 = write_number 4 (status_number task.status) ++ rest in
    let tail2 = write_string task.description ++ tail3 in
    let tail1 = write_string task.title ++ tail2 in
    rw
      (
        written_task task rest,
        read_string-write_string task.task_id tail1 h.task_id,
        read_string-write_string task.title tail2 h.title,
        read_string-write_string task.description tail3 h.description,
        read_number-write_number 4 (status_number task.status) rest h.status.short,
        h.status.same,
      )
      refl

-- What the loop inserts, task by task.
abbrev insert_all : List Task → TaskManager → TaskManager
insert_all [] m = m
insert_all (task ∷ tasks) m = insert_all tasks (insert task.task_id task m)

-- A property of every task holds of every task after the first.
Each-rest :
    (P : Text → Task → Type 0) (k : Text) (task : Task) (m : TaskManager)
    → lookup k m ≡ none
    → Each P ((k, task) ∷ m)
    → Each P m
unfolding lookup
Each-rest P k task m d h = record {
  at = λ j found e. h.at j found (ground (arith, text_beq_iff k j));
}

All-values :
    (P : Task → Type 0) (m : TaskManager)
    → Distinct m
    → Each (λ _ task. P task) m
    → All P (values m)
unfolding values lookup
All-values P [] d h = tt
All-values P ((k, task) ∷ m) d h = (
  h.at k task (rw beq_refl refl),
  All-values P m d.1 (Each-rest (λ _ found. P found) k task m d.0 h),
)

read_tasks-write_tasks :
    (tasks : List Task) (m : TaskManager)
    → All (λ task. IsStored task.task_id task) tasks
    → read_tasks (length tasks) (write_tasks tasks) m ≡ some (insert_all tasks m)
unfolding read_tasks write_tasks
read_tasks-write_tasks [] m h = refl
read_tasks-write_tasks (task ∷ tasks) m h =
    rw (read_task-write_task task.task_id task (write_tasks tasks) h.0)
      (read_tasks-write_tasks tasks (insert task.task_id task m) h.1)

-- The last task with an id decides what is found under it; ids that do not repeat have one.
lookup-insert_all :
    (saved m : TaskManager) (j : Text)
    → Distinct saved
    → Each (λ key (task : Task). task.task_id ≡ key) saved
    → lookup j (insert_all (values saved) m)
      ≡ (elim (lookup j saved) [ none ↦ lookup j m | some task ↦ some task ])
unfolding values lookup
lookup-insert_all [] m j d h = refl
lookup-insert_all ((k, task) ∷ saved) m j d h =
    let id : task.task_id ≡ k = h.at k task (rw beq_refl refl) in
    let rest =
      lookup-insert_all saved (insert task.task_id task m) j d.1
        (Each-rest (λ key (found : Task). found.task_id ≡ key) k task saved d.0 h) in
    ground (arith, rest, id, lookup-insert task.task_id j task m, text_beq_iff k j, d.0)

own_key : (key : Text) (task : Task) → IsStored key task → IsStored task.task_id task
own_key key task s = record {
  id = refl;
  task_id = s.task_id;
  title = s.title;
  description = s.description;
  status = s.status;
}

found_again : (o : Option Task) → (elim o [ none ↦ none | some task ↦ some task ]) ≡ o
found_again none = refl
found_again (some task) = refl

-- Saving tasks and loading the file gives tasks that are found under the same ids, if every task is
-- stored under its id, no id repeats, the texts hold no NUL, and all sizes fit into a `size_t`.
pub load_from_file-save_to_file :
    (m : TaskManager)
    → Distinct m
    → Each IsStored m
    → length m < 256 ^ 8
    → (loaded : TaskManager) × (load_from_file (some (save_to_file m)) ≡ some loaded)
      × ((id : Text) → lookup id loaded ≡ lookup id m)
unfolding load_from_file save_to_file lookup
load_from_file-save_to_file m d h n = (
  insert_all (values m) [],
  rw
      (
        read_number-write_number 8 (length m) (write_tasks (values m)) n,
        sym (length-values m),
        read_tasks-write_tasks (values m) [] (
            All-values (λ task. IsStored task.task_id task) m d
              (Each-map (λ key task s. own_key key task s) h)),
      )
      refl,
  λ id. lookup-insert_all m [] id d (Each-map (λ key task s. s.id) h) ∙ found_again (lookup id m),
)
