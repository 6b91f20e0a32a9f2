-- ===== src/Soap/Interleaved.antt =====
-- Every connection has a thread of its own, and each call of `TaskManager` runs under its mutex. What
-- the calls of two clients leave does not depend on their order, where they are about different tasks,
-- in the view of the tasks that forgets the order in which the map is iterated.
use mathlib.Core.Quot
use mathlib.Core.Quot.{Quot}
use architecture_course.Prelude.{
  not, Option, none, some, Bool, ◌≡◌, ◌≢◌, refl, sym, ◌∙◌, subst, arith, ◌==◌, if◌then◌else◌,
  is_some, Bool-cases, inl, inr,
}
use architecture_course.Prelude.Map.{lookup}
use architecture_course.Prelude.Map.Laws.{lookup-insert, lookup-erase}
use architecture_course.Soap.Task.{text_eq, text_beq_iff, Text, Task}
use architecture_course.Soap.Manager.{TaskManager, create_task, update_task, delete_task}

-- The calls that change the tasks.
pub data Call : Type 0 where
  creates updates : Task → Call
  deletes : Text → Call

unfoldable pub call : Call → TaskManager → Bool × TaskManager
call (creates task) m = create_task m task
call (updates task) m = update_task m task
call (deletes id) m = delete_task m id

abbrev pub called : Call → Text
called (creates task) = task.task_id
called (updates task) = task.task_id
called (deletes id) = id

-- The tasks as what is found under each id.
abbrev pub SameTasks : TaskManager → TaskManager → Type 0
SameTasks m n = (id : Text) → lookup id m ≡ lookup id n

abbrev pub Tasks : Type 0
Tasks = Quot SameTasks

abbrev pub view : TaskManager → Tasks
view m = Quot.mk m

-- What a call answers and leaves, from what is stored under its id.
abbrev told : Call → Option Task → Bool
told (creates task) stored = not (is_some stored)
told (updates task) stored = is_some stored
told (deletes id) stored = is_some stored

abbrev left_by : Call → Option Task → Option Task
left_by (creates task) none = some task
left_by (creates task) (some old) = some old
left_by (updates task) none = none
left_by (updates task) (some old) = some task
left_by (deletes id) stored = none

-- A call is a change of one entry, under whose id `o` is stored.
record IsLocal (c : Call) (o : Option Task) (m : TaskManager) (r : Bool × TaskManager)
    : Type 0 where
  answer : r.0 ≡ told c o
  stored : (id : Text) → lookup id r.1 ≡ (if called c == id then left_by c o else lookup id m)

unchanged :
    (k id : Text) (m : TaskManager) (o : Option Task)
    → lookup k m ≡ o
    → lookup id m ≡ (if k == id then o else lookup id m)
unchanged k id m o e = elim (Bool-cases (k == id)) [
  | inl same ↦ rw same (subst (λ i. lookup i m ≡ o) ((text_beq_iff k id).0 same) e)
  | inr other ↦ rw other refl
]

call-IsLocal :
    (c : Call) (o : Option Task) (m : TaskManager)
    → lookup (called c) m ≡ o
    → IsLocal c o m (call c m)
unfolding call create_task update_task delete_task
call-IsLocal (creates task) none m e =
    rw e (record { answer = refl; stored = λ id. lookup-insert task.task_id id task m })
call-IsLocal (creates task) (some old) m e =
    rw e (record { answer = refl; stored = λ id. unchanged task.task_id id m (some old) e })
call-IsLocal (updates task) none m e =
    rw e (record { answer = refl; stored = λ id. unchanged task.task_id id m none e })
call-IsLocal (updates task) (some old) m e =
    rw e (record { answer = refl; stored = λ id. lookup-insert task.task_id id task m })
call-IsLocal (deletes k) none m e =
    rw e (record { answer = refl; stored = λ id. unchanged k id m none e })
call-IsLocal (deletes k) (some old) m e =
    rw e (record { answer = refl; stored = λ id. lookup-erase k id m })

-- After a call about another task, what is stored under an id is as it was.
elsewhere :
    (c d : Call) (m : TaskManager)
    → called d ≢ called c
    → lookup (called c) (call d m).1 ≡ lookup (called c) m
elsewhere c d m h =
    ground
      (arith, (call-IsLocal d _ m refl).stored (called c), text_beq_iff (called d) (called c), h)

-- A call after a call about another task, by what was stored before both.
twice :
    (c d : Call) (m : TaskManager)
    → called d ≢ called c
    → IsLocal c (lookup (called c) m) (call d m).1 (call c (call d m).1)
twice c d m h = call-IsLocal c _ (call d m).1 (elsewhere c d m h)

twice_lem :
    (c d : Call) (m : TaskManager)
    → called c ≢ called d
    → SameTasks (call c (call d m).1).1 (call d (call c m).1).1
twice_lem c d m h id = ground (
  arith,
  h,
  text_beq_iff (called c) id,
  text_beq_iff (called d) id,
  (twice c d m (λ e. h (sym e))).stored id,
  (twice d c m h).stored id,
  (call-IsLocal c _ m refl).stored id,
  (call-IsLocal d _ m refl).stored id,
)

-- Two calls about different tasks are answered the same in either order, each as if the other had not
-- been made, and they leave the same tasks.
pub calls_commute :
    (c d : Call) (m : TaskManager)
    → called c ≢ called d
    → ((call c (call d m).1).0 ≡ (call c m).0)
      × ((call d (call c m).1).0 ≡ (call d m).0)
      × (view (call c (call d m).1).1 ≡ view (call d (call c m).1).1)
calls_commute c d m h = (
  (twice c d m (λ e. h (sym e))).answer ∙ sym (call-IsLocal c _ m refl).answer,
  (twice d c m h).answer ∙ sym (call-IsLocal d _ m refl).answer,
  Quot.sound (twice_lem c d m h),
)
