-- ===== src/Soap/File.antt =====
-- `SaveToFile` and `LoadFromFile`, on the bytes of the data file. A `size_t` has eight bytes and an
-- `int` four, the lowest first. Where a file ends early the source reads values that were never set;
-- here there is no result.
use architecture_course.Prelude.{
  ℕ, zero, suc, ◌+◌, ◌*◌, ◌/◌, ◌%◌, Option, none, some, List, [], ◌∷◌, ◌++◌, length, if◌then◌else◌,
  nat_beq,
}
use architecture_course.Prelude.Map.{insert, values}
use architecture_course.Soap.Task.{
  text_eq, Text, TaskStatus, fresh, in_progress, completed, other, Task,
}
use architecture_course.Soap.Manager.{TaskManager}

infixl 5 ◌>>=◌
-- A failed read ends the reading.
abbrev pub ◌>>=◌ {ℓ κ} : {A : Type ℓ} {B : Type κ} → Option A → (A → Option B) → Option B
none >>= next = none
some a >>= next = next a

-- `file.write` and `file.read` of a number of the given width
unfoldable pub write_number : ℕ → ℕ → Text
write_number zero n = []
write_number (suc width) n = n % 256 ∷ write_number width (n / 256)

unfoldable pub read_number : ℕ → Text → Option (ℕ × Text)
read_number zero file = some (0, file)
read_number (suc width) [] = none
read_number (suc width) (byte ∷ file) = do
  (n, rest) ← read_number width file
  some (byte + 256 * n, rest)

unfoldable pub read_bytes : ℕ → Text → Option (Text × Text)
read_bytes zero file = some ([], file)
read_bytes (suc n) [] = none
read_bytes (suc n) (byte ∷ file) = do (buffer, rest) ← read_bytes n file; some (byte ∷ buffer, rest)

-- The assignment of a `char *` to a string ends at the first NUL.
unfoldable pub until_nul : Text → Text
until_nul [] = []
until_nul (byte ∷ buffer) = if nat_beq byte 0 then [] else byte ∷ until_nul buffer

unfoldable pub write_string : Text → Text
write_string s = write_number 8 (length s) ++ s

unfoldable pub read_string : Text → Option (Text × Text)
read_string file = do
  (n, chars) ← read_number 8 file
  (buffer, rest) ← read_bytes n chars
  some (until_nul buffer, rest)

unfoldable pub status_number : TaskStatus → ℕ
status_number fresh = 0
status_number in_progress = 1
status_number completed = 2
status_number (other n) = n

unfoldable pub status_of : ℕ → TaskStatus
status_of n =
    if nat_beq n 0
    then fresh
    else if nat_beq n 1
    then in_progress
    else if nat_beq n 2
    then completed
    else other n

unfoldable pub write_task : Task → Text
write_task task =
    write_string task.task_id
    ++ (write_string task.title
        ++ (write_string task.description ++ write_number 4 (status_number task.status)))

unfoldable pub read_task : Text → Option (Task × Text)
read_task file = do
  (task_id, file1) ← read_string file
  (title, file2) ← read_string file1
  (description, file3) ← read_string file2
  (number, rest) ← read_number 4 file3
  some (
    record {
      task_id = task_id;
      title = title;
      description = description;
      status = status_of number;
    },
    rest,
  )

unfoldable pub write_tasks : List Task → Text
write_tasks [] = []
write_tasks (task ∷ tasks) = write_task task ++ write_tasks tasks

-- The loop of `LoadFromFile`.
unfoldable pub read_tasks : ℕ → Text → TaskManager → Option TaskManager
read_tasks zero file m = some m
read_tasks (suc count) file m = do
  (task, rest) ← read_task file
  read_tasks count rest (insert task.task_id task m)

unfoldable pub save_to_file : TaskManager → Text
save_to_file m = write_number 8 (length m) ++ write_tasks (values m)

-- A file that cannot be opened is `none`: the manager starts empty.
unfoldable pub load_from_file : Option Text → Option TaskManager
load_from_file none = some []
load_from_file (some file) = do (count, rest) ← read_number 8 file; read_tasks count rest []
