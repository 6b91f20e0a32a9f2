-- ===== src/Rpc/Following.antt =====
-- Each session answers its messages one after the other.
use architecture_course.Prelude.{
  subst, ℕ, zero, suc, Option, List, [], ◌∷◌, ◌++◌, Bool, true, false, ◌≡◌, refl, All, All-append,
  length, ◌≤◌, arith, subst, ◌∙◌, ap, sym,
}
use mathlib.Core.List.{append-nil}
use architecture_course.Rpc.Registry.{MethodRegistry}
use architecture_course.Rpc.Session.{Json, Handler, Written, on_read}
use architecture_course.Rpc.Server.{
  Stage, accepting, reading, writing, ended, Session, Server, Received, closed, failed, received,
  Event, accepts, opens, reads, writes, new_session, opened_in, written_in, read_in, change_at,
  started, step, run,
}

module _ {ℓ κ} {J : Type ℓ} {S : Type κ} (json : Json J) (r : MethodRegistry (Handler J S)) where
  -- One answer for each message, in the same order, each the answer in some state.
  pub data Follows : List (Option J) → List (Written J) → Type (ℓ ⊔ κ) where
    begins : Follows [] []
    continues :
        {ms : List (Option J)} {ws : List (Written J)} (m : Option J) (s : S)
        → Follows ms ws
        → Follows (ms ++ (m ∷ [])) (ws ++ ((on_read json r s m).0 ∷ []))

  -- What a session has answered, and the messages it has not.
  pub record IsFollowed (unanswered heard : List (Option J)) (told : List (Written J))
      : Type (ℓ ⊔ κ) where
    pub messages : List (Option J)
    pub split : heard ≡ messages ++ unanswered
    pub follows : Follows messages told

  -- One that accepts or reads has answered all, one that writes is about to answer the last one, and
  -- one that has ended may have left the last one without an answer.
  abbrev pub IsInStage : Stage J → List (Option J) → List (Written J) → Type (ℓ ⊔ κ)
  IsInStage accepting heard told = IsFollowed [] heard told
  IsInStage reading heard told = IsFollowed [] heard told
  IsInStage (writing answer) heard told =
      (m : Option J) × (s : S) × (answer ≡ (on_read json r s m).0) × IsFollowed (m ∷ []) heard told
  IsInStage ended heard told =
      (unanswered : List (Option J)) × (length unanswered ≤ 1) × IsFollowed unanswered heard told

  abbrev pub IsOrderly : Session J → Type (ℓ ⊔ κ)
  IsOrderly session = IsInStage session.stage session.heard session.told

  opened-IsOrderly :
      (stage : Stage J) (ok : Bool) (heard : List (Option J)) (told : List (Written J))
      → IsInStage stage heard told
      → IsInStage (opened_in stage ok) heard told
  opened-IsOrderly accepting true heard told h = h
  opened-IsOrderly accepting false heard told h = ([], omega arith, h)
  opened-IsOrderly reading ok heard told h = h
  opened-IsOrderly (writing answer) ok heard told h = h
  opened-IsOrderly ended ok heard told h = h

  written-IsOrderly :
      (stage : Stage J) (ok : Bool) (session : Session J)
      → stage ≡ session.stage
      → IsInStage stage session.heard session.told
      → IsOrderly (written_in stage ok session)
  written-IsOrderly (writing answer) true session e (m, s, same, f) = record {
    messages = f.messages ++ (m ∷ []);
    split = f.split ∙ sym (append-nil _);
    follows =
        subst (λ w. Follows (f.messages ++ (m ∷ [])) (session.told ++ (w ∷ []))) (sym same)
          (continues m s f.follows);
  }
  written-IsOrderly (writing answer) false session e (m, s, same, f) = (m ∷ [], omega arith, f)
  written-IsOrderly accepting ok session e h =
      subst (λ stage. IsInStage stage session.heard session.told) e h
  written-IsOrderly reading ok session e h =
      subst (λ stage. IsInStage stage session.heard session.told) e h
  written-IsOrderly ended ok session e h =
      subst (λ stage. IsInStage stage session.heard session.told) e h

  read-IsOrderly :
      (stage : Stage J) (ending : Received J) (s : S) (session : Session J)
      → stage ≡ session.stage
      → IsInStage stage session.heard session.told
      → IsOrderly (read_in json r stage ending s session).0
  read-IsOrderly reading closed s session e f = ([], omega arith, f)
  read-IsOrderly reading failed s session e f = ([], omega arith, f)
  read-IsOrderly reading (received text) s session e f = (
    text,
    s,
    refl,
    record {
      messages = f.messages;
      split = ap (λ heard. heard ++ (text ∷ [])) (f.split ∙ append-nil _);
      follows = f.follows;
    },
  )
  read-IsOrderly accepting ending s session e h =
      subst (λ stage. IsInStage stage session.heard session.told) e h
  read-IsOrderly (writing answer) ending s session e h =
      subst (λ stage. IsInStage stage session.heard session.told) e h
  read-IsOrderly ended ending s session e h =
      subst (λ stage. IsInStage stage session.heard session.told) e h

  change_at-All :
      (P : Session J → Type (ℓ ⊔ κ)) (n : ℕ) (change : S → Session J → Session J × S)
      → ((s : S) (session : Session J) → P session → P (change s session).0)
      → (s : S) (sessions : List (Session J)) → All P sessions
      → All P (change_at json r n change s sessions).0
  change_at-All P n change keeps s [] h = tt
  change_at-All P zero change keeps s (session ∷ sessions) h = (keeps s session h.0, h.1)
  change_at-All P (suc n) change keeps s (session ∷ sessions) h =
      (h.0, change_at-All P n change keeps s sessions h.1)

  step-IsOrderly :
      (event : Event J) (server : Server J S)
      → All IsOrderly server.sessions
      → All IsOrderly (step json r event server).sessions
  unfolding step
  step-IsOrderly (accepts true) server h =
      All-append IsOrderly server.sessions (new_session ∷ []) h
        (record { messages = []; split = refl; follows = begins }, tt)
  step-IsOrderly (accepts false) server h = h
  step-IsOrderly (opens n ok) server h =
      change_at-All IsOrderly n _
        (λ s session k. opened-IsOrderly session.stage ok session.heard session.told k) server.state
        server.sessions h
  step-IsOrderly (reads n ending) server h =
      change_at-All IsOrderly n _
        (λ s session k. read-IsOrderly session.stage ending s session refl k) server.state
        server.sessions h
  step-IsOrderly (writes n ok) server h =
      change_at-All IsOrderly n _ (λ s session k. written-IsOrderly session.stage ok session refl k)
        server.state server.sessions h

  run-IsOrderly :
      (events : List (Event J)) (server : Server J S)
      → All IsOrderly server.sessions
      → All IsOrderly (run json r events server).sessions
  unfolding run
  run-IsOrderly [] server h = h
  run-IsOrderly (event ∷ events) server h =
      run-IsOrderly events (step json r event server) (step-IsOrderly event server h)

  -- Whatever the order in which the callbacks of the server and of its sessions run and however they
  -- end, each session has answered the messages that it read, each once and in their order, by an answer
  -- of `onRead` in some state: all of them while it reads, all but the last one while it writes the answer
  -- to it, and all but at most the last one when it has ended.
  pub run-started-IsOrderly :
      (events : List (Event J)) (s : S) → All IsOrderly (run json r events (started s)).sessions
  run-started-IsOrderly events s = run-IsOrderly events (started s) tt
