-- ===== src/Soap/Manager.antt =====
-- `TaskManager` in memory. The callbacks, which no part of the program sets, are left out.
use architecture_course.Prelude.{
  ℕ, ◌+◌, Option, List, [], ◌∷◌, Bool, true, false, ◌&&◌, ◌||◌, if◌then◌else◌, leb, length, keep_if,
  map, nat_beq,
}
use architecture_course.Prelude.Map.{Map, lookup, insert, erase, contains, values}
use architecture_course.Soap.Task.{
  text_eq, Text, TaskStatus, fresh, in_progress, completed, other, Task,
}

abbrev pub TaskManager : Type 0
TaskManager = Map Text Task

unfoldable pub create_task : TaskManager → Task → Bool × TaskManager
create_task m task =
    if contains task.task_id m then (false, m) else (true, insert task.task_id task m)

unfoldable pub get_task : TaskManager → Text → Option Task
get_task m id = lookup id m

unfoldable pub update_task : TaskManager → Task → Bool × TaskManager
update_task m task =
    if contains task.task_id m then (true, insert task.task_id task m) else (false, m)

unfoldable pub delete_task : TaskManager → Text → Bool × TaskManager
delete_task m id = if contains id m then (true, erase id m) else (false, m)

unfoldable pub get_all_tasks : TaskManager → List Task
unfolding values
get_all_tasks m = values m

abbrev pub has_status : TaskStatus → Task → Bool
has_status status task = same status task.status
  where
    same : TaskStatus → TaskStatus → Bool
    same fresh fresh = true
    same in_progress in_progress = true
    same completed completed = true
    same (other m) (other n) = nat_beq m n
    same _ _ = false

unfoldable pub get_tasks_by_status : TaskManager → TaskStatus → List Task
unfolding values
get_tasks_by_status m status = keep_if (has_status status) (values m)

unfoldable pub get_task_count : TaskManager → ℕ
get_task_count m = length m

-- `::tolower` on a byte, in the "C" locale
abbrev pub to_lower : ℕ → ℕ
to_lower c = if leb 65 c && leb c 90 then c + 32 else c

abbrev pub starts_with : Text → Text → Bool
starts_with [] s = true
starts_with (a ∷ xs) [] = false
starts_with (a ∷ xs) (b ∷ ys) = nat_beq a b && starts_with xs ys

-- `s.find(keyword) != npos`
abbrev pub occurs : Text → Text → Bool
occurs keyword [] = starts_with keyword []
occurs keyword (c ∷ s) = starts_with keyword (c ∷ s) || occurs keyword s

unfoldable pub search_tasks : TaskManager → Text → List Task
unfolding values
search_tasks m keyword =
    let lower = map to_lower in
    keep_if
      (λ (task : Task).
        occurs (lower keyword) (lower task.title)
        || occurs (lower keyword) (lower task.description))
      (values m)

pub record Statistics : Type 0 where
  pub total_tasks : ℕ
  pub new_tasks : ℕ
  pub in_progress_tasks : ℕ
  pub completed_tasks : ℕ

-- One iteration of the loop of `GetStatistics`.
abbrev pub count_task : Task → Statistics → Statistics
count_task task stats = counted task.status
  where
    counted : TaskStatus → Statistics
    counted fresh = record stats { new_tasks = stats.new_tasks + 1 }
    counted in_progress = record stats { in_progress_tasks = stats.in_progress_tasks + 1 }
    counted completed = record stats { completed_tasks = stats.completed_tasks + 1 }
    counted (other n) = stats

unfoldable pub count_tasks : List Task → Statistics → Statistics
count_tasks [] stats = stats
count_tasks (task ∷ tasks) stats = count_tasks tasks (count_task task stats)

unfoldable pub get_statistics : TaskManager → Statistics
unfolding count_tasks values
get_statistics m =
    count_tasks (values m)
      (record { total_tasks = length m; new_tasks = 0; in_progress_tasks = 0; completed_tasks = 0 })
