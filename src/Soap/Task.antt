-- ===== src/Soap/Task.antt =====
-- task.h and task.cpp. A text is its bytes, as the data file and the search work on them.
use Prim.Native.Char.{code}
use Prim.Native.String.{String}
use architecture_course.Prelude.{
  nat_eq, nat_beq, nat_beq_iff, Eq, ℕ, List, [], ◌∷◌, Bool, true, false, ◌≡◌, ◌↔◌, refl, ◌&&◌, ◌||◌,
  ◌==◌, if◌then◌else◌, arith,
}

abbrev pub Text : Type 0
Text = List ℕ

-- The bytes of an ASCII literal.
abbrev pub bytes : String → Text
bytes String.[] = []
bytes (String.◌∷◌ c s) = code c ∷ bytes s

unfoldable pub text_beq : Text → Text → Bool
text_beq [] [] = true
text_beq [] (b ∷ ys) = false
text_beq (a ∷ xs) [] = false
text_beq (a ∷ xs) (b ∷ ys) = nat_beq a b && text_beq xs ys

pub text_beq_iff : (s t : Text) → (text_beq s t ≡ true) ↔ (s ≡ t)
unfolding text_beq
text_beq_iff [] [] = (λ _. refl, λ _. refl)
text_beq_iff [] (b ∷ ys) = (λ e. cc, λ e. cc)
text_beq_iff (a ∷ xs) [] = (λ e. cc, λ e. cc)
text_beq_iff (a ∷ xs) (b ∷ ys) = ground (arith, text_beq_iff xs ys, nat_beq_iff a b)

instance abbrev pub text_eq : Eq Text
text_eq = record { equals = text_beq; equals_iff = text_beq_iff }

-- `other` is a value that `static_cast` makes of a number in a file that is none of the enumerators.
pub data TaskStatus : Type 0 where
  fresh in_progress completed : TaskStatus
  other : ℕ → TaskStatus

unfoldable pub task_status_to_string : TaskStatus → Text
task_status_to_string fresh = bytes "New"
task_status_to_string in_progress = bytes "In Progress"
task_status_to_string completed = bytes "Completed"
task_status_to_string (other n) = bytes "Unknown"

unfoldable pub string_to_task_status : Text → TaskStatus
unfolding text_beq
string_to_task_status s =
    if s == bytes "New" || s == bytes "new"
    then fresh
    else if s == bytes "In Progress" || s == bytes "in progress"
    then in_progress
    else if s == bytes "Completed" || s == bytes "completed"
    then completed
    else fresh

pub record Task : Type 0 where
  pub task_id : Text
  pub title : Text
  pub description : Text
  pub status : TaskStatus
