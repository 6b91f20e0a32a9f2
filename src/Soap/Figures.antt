-- ===== src/Soap/Figures.antt =====
-- The figures of `GetStatistics`, and the names of the statuses.
use architecture_course.Prelude.{◌+◌, List, [], ◌∷◌, ◌≡◌, refl, arith, length, keep_if}
use architecture_course.Prelude.Map.{values}
use architecture_course.Soap.Task.{
  TaskStatus, other, Task, task_status_to_string, string_to_task_status,
}
use architecture_course.Soap.Manager.{
  TaskManager, get_tasks_by_status, get_task_count, Statistics, get_statistics, count_tasks,
  count_task, has_status,
}

-- What the loop adds to the figures it starts with.
pub record IsCounted (tasks : List Task) (start last : Statistics) : Type 0 where
  pub total : last.total_tasks ≡ start.total_tasks
  pub fresh :
      last.new_tasks ≡ start.new_tasks + length (keep_if (has_status TaskStatus.fresh) tasks)
  pub in_progress :
      last.in_progress_tasks
      ≡ start.in_progress_tasks + length (keep_if (has_status TaskStatus.in_progress) tasks)
  pub completed :
      last.completed_tasks
      ≡ start.completed_tasks + length (keep_if (has_status TaskStatus.completed) tasks)

count_tasks-IsCounted :
    (tasks : List Task) (start : Statistics) → IsCounted tasks start (count_tasks tasks start)
unfolding count_tasks
count_tasks-IsCounted [] start = record {
  total = refl;
  fresh = omega arith;
  in_progress = omega arith;
  completed = omega arith;
}
count_tasks-IsCounted (task ∷ tasks) start =
    let r = count_tasks-IsCounted tasks (count_task task start) in
    record {
      total = ground (arith, r.total);
      fresh = ground (arith, r.fresh);
      in_progress = ground (arith, r.in_progress);
      completed = ground (arith, r.completed);
    }

-- `GetStatistics` agrees with the other queries: the total is the count of tasks, and the figure of
-- each status is the number of tasks that `GetTasksByStatus` lists for it.
pub get_statistics_lem :
    (m : TaskManager)
    → let stats = get_statistics m in
      (stats.total_tasks ≡ get_task_count m)
      × (stats.new_tasks ≡ length (get_tasks_by_status m TaskStatus.fresh))
      × (stats.in_progress_tasks ≡ length (get_tasks_by_status m TaskStatus.in_progress))
      × (stats.completed_tasks ≡ length (get_tasks_by_status m TaskStatus.completed))
unfolding get_statistics get_task_count get_tasks_by_status
get_statistics_lem m =
    let r = count_tasks-IsCounted (values m) (record {
      total_tasks = length m;
      new_tasks = 0;
      in_progress_tasks = 0;
      completed_tasks = 0;
    }) in
    (r.total, omega (arith, r.fresh), omega (arith, r.in_progress), omega (arith, r.completed))

-- The status that a name is read as.
abbrev pub known_status : TaskStatus → TaskStatus
known_status TaskStatus.fresh = TaskStatus.fresh
known_status TaskStatus.in_progress = TaskStatus.in_progress
known_status TaskStatus.completed = TaskStatus.completed
known_status (other n) = TaskStatus.fresh

-- Reading the name of a status gives the status back, and New for a value that is no enumerator.
pub string_to_task_status-task_status_to_string :
    (s : TaskStatus) → string_to_task_status (task_status_to_string s) ≡ known_status s
unfolding string_to_task_status task_status_to_string
string_to_task_status-task_status_to_string TaskStatus.fresh = refl
string_to_task_status-task_status_to_string TaskStatus.in_progress = refl
string_to_task_status-task_status_to_string TaskStatus.completed = refl
string_to_task_status-task_status_to_string (other n) = refl
