-- ===== src/Auction/Server/Heard.antt =====
-- What the log says of one session and one `OnRead`, and how it goes on with one notice.
use mathlib.Core.List.{append_assoc, append-nil}
use architecture_course.Prelude.{
  nat_eq, ℕ, ◌≤◌, none, List, [], ◌∷◌, ◌++◌, Bool, true, false, ◌==◌, ◌≡◌, refl, sym, ap, ◌∙◌,
  subst, if◌then◌else◌, has, Once, nat_beq_iff,
}
use architecture_course.Prelude.Map.{lookup}
use architecture_course.Auction.Server.{Handling, Server, handling, set_handling}
use architecture_course.Auction.Server.Delivery.{handling-set_handling}
use architecture_course.Auction.Server.Hears.{Hears}
use architecture_course.Auction.Server.Hearing.{
  asked, done, asked_by, done_by, asked-more, done-more, Notice, member_after, posted_by,
  posted_from_by, due_by, is_member, posted, posted_from, due_from, underway, is_member-more,
  posted-more, posted_from-more, due_from-more,
}

moved_on {ℓ} :
    {A : Type ℓ} (past u due now u' : List A)
    → u ++ due ≡ now ++ u'
    → (past ++ now) ++ u' ≡ (past ++ u) ++ due
moved_on past u due now u' e =
    append_assoc past now u' ∙ ap (λ l. past ++ l) (sym e) ∙ sym (append_assoc past u due)

module _ {ℓ} {W : Type ℓ} (h i : ℕ) where
  -- The server after the log, as far as the session `i` and the `OnRead` of `h` are concerned.
  pub record IsHeard (log : List (Notice W)) (s : Server W) : Type ℓ where
    pub once : Once s.sessions
    pub fresh : s.next_session ≤ i → lookup i s.writers ≡ none
    pub member : has i s.sessions ≡ is_member i false log
    pub hears : Hears (posted i log) (lookup i s.writers)
    pub sent : posted_from h i log ++ underway i (handling h s).snapshot ≡ due_from h i false log
    pub turns : done h log ++ (handling h s).tasks ≡ asked h log

  -- One notice more.
  pub next-IsHeard :
      (log : List (Notice W)) (notice : Notice W) (s s' : Server W)
      → IsHeard log s
      → Once s'.sessions
      → (s'.next_session ≤ i → lookup i s'.writers ≡ none)
      → has i s'.sessions ≡ member_after i (has i s.sessions) notice
      → Hears (posted i log ++ posted_by i notice) (lookup i s'.writers)
      → underway i (handling h s).snapshot ++ due_by h i (has i s.sessions) notice
        ≡ posted_from_by h i notice ++ underway i (handling h s').snapshot
      → (handling h s).tasks ++ asked_by h notice ≡ done_by h notice ++ (handling h s').tasks
      → IsHeard (log ++ (notice ∷ [])) s'
  next-IsHeard log notice s s' before once fresh member hears sent turns = record {
    once = once;
    fresh = fresh;
    member =
        member
        ∙ ap (λ b. member_after i b notice) before.member
        ∙ sym (is_member-more i false log notice);
    hears = subst (λ l. Hears l (lookup i s'.writers)) (sym (posted-more i log notice)) hears;
    sent =
        ap (λ l. l ++ underway i (handling h s').snapshot) (posted_from-more h i log notice)
        ∙ moved_on (posted_from h i log) (underway i (handling h s).snapshot)
            (due_by h i (has i s.sessions) notice) (posted_from_by h i notice)
            (underway i (handling h s').snapshot) sent
        ∙ ap (λ l. l ++ due_by h i (has i s.sessions) notice) before.sent
        ∙ ap (λ b. due_from h i false log ++ due_by h i b notice) before.member
        ∙ sym (due_from-more h i false log notice);
    turns =
        ap (λ l. l ++ (handling h s').tasks) (done-more h log notice)
        ∙ moved_on (done h log) (handling h s).tasks (asked_by h notice) (done_by h notice)
            (handling h s').tasks turns
        ∙ ap (λ l. l ++ asked_by h notice) before.turns
        ∙ sym (asked-more h log notice);
  }

  -- A step of the `OnRead` of a session leaves the other handlers as they are.
  pub handled_on :
      {A : Type ℓ} (part : Handling W → List A) (session : ℕ) (before work : Handling W)
      (due now : List A) (s : Server W)
      → handling session s ≡ before
      → ((session == h) ≡ true → part before ++ due ≡ now ++ part work)
      → ((session == h) ≡ false → (due ≡ []) × (now ≡ []))
      → part (handling h s) ++ due ≡ now ++ part (handling h (set_handling session work s))
  handled_on part session before work due now s at same other =
      by_case (session == h) refl
      ∙ ap (λ x. now ++ part x) (sym (handling-set_handling h session work s))
    where
      by_case :
          (b : Bool)
          → (session == h) ≡ b
          → part (handling h s) ++ due ≡ now ++ part (if b then work else handling h s)
      by_case true e =
          ap (λ x. part x ++ due) (ap (λ k. handling k s) (sym ((nat_beq_iff session h).0 e)) ∙ at)
          ∙ same e
      by_case false e =
          let none_for = other e in
          ap (λ l. part (handling h s) ++ l) none_for.0
          ∙ append-nil (part (handling h s))
          ∙ ap (λ l. l ++ part (handling h s)) (sym none_for.1)
