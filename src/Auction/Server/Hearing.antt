-- ===== src/Auction/Server/Hearing.antt =====
-- A run of the server as a log of notices, and what the log says of a session: its messages, and those
-- that are due to it.
use mathlib.Core.List.{append_assoc, append-nil}
use architecture_course.Prelude.{
  ap, sym, ◌∙◌, ◌&&◌, nat_eq, ℕ, List, [], ◌∷◌, ◌++◌, Bool, true, false, ◌||◌, ◌==◌, ◌≡◌, refl,
  if◌then◌else◌,
}
use architecture_course.Auction.Session.{Event, Response}
use architecture_course.Auction.Server.{Task, Message, announcement, reply}

-- What happens to the sessions: one joins or leaves; one reads a request, which asks for its tasks, and
-- its `OnRead` takes the snapshot for an event, delivers the event to another session, and answers.
pub data Notice {ℓ} (W : Type ℓ) : Type ℓ where
  joined left : ℕ → Notice W
  received : ℕ → List (Task W) → Notice W
  announced : ℕ → Event W → Notice W
  delivered : ℕ → ℕ → Event W → Notice W
  answered : ℕ → Response W → Notice W

-- The one-element list, or none.
abbrev pub only {ℓ} : {A : Type ℓ} → Bool → A → List A
only true a = a ∷ []
only false a = []

module _ {ℓ} {W : Type ℓ} where
  -- What one notice says: whether the session `i` is registered after it, if it is before when `member`
  -- says so; the message that it posts to `i`; the one that the `OnRead` of `h` posts to `i`; and the one
  -- that is due to `i` from `h`: an event whose snapshot is taken while `i` is registered, or its answer.
  abbrev pub member_after : ℕ → Bool → Notice W → Bool
  member_after i member (joined session) = session == i || member
  member_after i member (left session) = if session == i then false else member
  member_after i member notice = member

  abbrev pub posted_by : ℕ → Notice W → List (Message W)
  posted_by i (delivered h receiver event) = only (receiver == i) (announcement event)
  posted_by i (answered session response) = only (session == i) (reply response)
  posted_by i notice = []

  abbrev pub posted_from_by : ℕ → ℕ → Notice W → List (Message W)
  posted_from_by h i (delivered session receiver event) =
      only (session == h && receiver == i) (announcement event)
  posted_from_by h i (answered session response) =
      only (session == h && session == i) (reply response)
  posted_from_by h i notice = []

  abbrev pub due_by : ℕ → ℕ → Bool → Notice W → List (Message W)
  due_by h i member (announced session event) = only (session == h && member) (announcement event)
  due_by h i member (answered session response) =
      only (session == h && session == i) (reply response)
  due_by h i member notice = []

  -- The tasks that the requests of `h` ask for, and the one that its `OnRead` does.
  abbrev pub asked_by : ℕ → Notice W → List (Task W)
  asked_by h (received session tasks) = if session == h then tasks else []
  asked_by h notice = []

  abbrev pub done_by : ℕ → Notice W → List (Task W)
  done_by h (announced session event) = only (session == h) (Task.broadcasts event)
  done_by h (answered session response) = only (session == h) (Task.answers response)
  done_by h notice = []

  -- And what a log says.
  abbrev pub is_member : ℕ → Bool → List (Notice W) → Bool
  is_member i member [] = member
  is_member i member (notice ∷ log) = is_member i (member_after i member notice) log

  abbrev pub posted : ℕ → List (Notice W) → List (Message W)
  posted i [] = []
  posted i (notice ∷ log) = posted_by i notice ++ posted i log

  abbrev pub posted_from : ℕ → ℕ → List (Notice W) → List (Message W)
  posted_from h i [] = []
  posted_from h i (notice ∷ log) = posted_from_by h i notice ++ posted_from h i log

  abbrev pub due_from : ℕ → ℕ → Bool → List (Notice W) → List (Message W)
  due_from h i member [] = []
  due_from h i member (notice ∷ log) =
      due_by h i member notice ++ due_from h i (member_after i member notice) log

  abbrev pub asked : ℕ → List (Notice W) → List (Task W)
  asked h [] = []
  asked h (notice ∷ log) = asked_by h notice ++ asked h log

  abbrev pub done : ℕ → List (Notice W) → List (Task W)
  done h [] = []
  done h (notice ∷ log) = done_by h notice ++ done h log

  -- What the `OnRead` of a session has still to deliver to `i`.
  abbrev pub underway : ℕ → List (Event W × ℕ) → List (Message W)
  underway i [] = []
  underway i ((event, receiver) ∷ snapshot) =
      only (receiver == i) (announcement event) ++ underway i snapshot

  -- One notice more.
  pub is_member-more :
      (i : ℕ) (member : Bool) (log : List (Notice W)) (notice : Notice W)
      → is_member i member (log ++ (notice ∷ [])) ≡ member_after i (is_member i member log) notice
  is_member-more i member [] notice = refl
  is_member-more i member (n ∷ log) notice = is_member-more i (member_after i member n) log notice

  pub posted-more :
      (i : ℕ) (log : List (Notice W)) (notice : Notice W)
      → posted i (log ++ (notice ∷ [])) ≡ posted i log ++ posted_by i notice
  posted-more i [] notice = append-nil _
  posted-more i (n ∷ log) notice =
      ap (λ l. posted_by i n ++ l) (posted-more i log notice)
      ∙ sym (append_assoc (posted_by i n) (posted i log) (posted_by i notice))

  pub posted_from-more :
      (h i : ℕ) (log : List (Notice W)) (notice : Notice W)
      → posted_from h i (log ++ (notice ∷ [])) ≡ posted_from h i log ++ posted_from_by h i notice
  posted_from-more h i [] notice = append-nil _
  posted_from-more h i (n ∷ log) notice =
      ap (λ l. posted_from_by h i n ++ l) (posted_from-more h i log notice)
      ∙ sym (append_assoc (posted_from_by h i n) (posted_from h i log) (posted_from_by h i notice))

  pub due_from-more :
      (h i : ℕ) (member : Bool) (log : List (Notice W)) (notice : Notice W)
      → due_from h i member (log ++ (notice ∷ []))
        ≡ due_from h i member log ++ due_by h i (is_member i member log) notice
  due_from-more h i member [] notice = append-nil _
  due_from-more h i member (n ∷ log) notice =
      ap (λ l. due_by h i member n ++ l) (due_from-more h i (member_after i member n) log notice)
      ∙ sym (
          append_assoc (due_by h i member n) (due_from h i (member_after i member n) log)
            (due_by h i (is_member i (member_after i member n) log) notice))

  pub asked-more :
      (h : ℕ) (log : List (Notice W)) (notice : Notice W)
      → asked h (log ++ (notice ∷ [])) ≡ asked h log ++ asked_by h notice
  asked-more h [] notice = append-nil _
  asked-more h (n ∷ log) notice =
      ap (λ l. asked_by h n ++ l) (asked-more h log notice)
      ∙ sym (append_assoc (asked_by h n) (asked h log) (asked_by h notice))

  pub done-more :
      (h : ℕ) (log : List (Notice W)) (notice : Notice W)
      → done h (log ++ (notice ∷ [])) ≡ done h log ++ done_by h notice
  done-more h [] notice = append-nil _
  done-more h (n ∷ log) notice =
      ap (λ l. done_by h n ++ l) (done-more h log notice)
      ∙ sym (append_assoc (done_by h n) (done h log) (done_by h notice))
