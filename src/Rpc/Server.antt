-- ===== src/Rpc/Server.antt =====
-- The server of server.cpp with its sessions (session.cpp): what each callback does, for every outcome
-- of the socket. `heard` and `told` are what a session has read and written.
use architecture_course.Prelude.{ℕ, zero, suc, Option, List, [], ◌∷◌, ◌++◌, Bool, true, false}
use architecture_course.Rpc.Registry.{MethodRegistry}
use architecture_course.Rpc.Session.{Json, Handler, Written, on_read}

-- The callback that a session waits for; one that has none is `ended`.
pub data Stage {ℓ} (J : Type ℓ) : Type ℓ where
  accepting : Stage J
  reading : Stage J
  writing : Written J → Stage J
  ended : Stage J

pub record Session {ℓ} (J : Type ℓ) : Type ℓ where
  pub stage : Stage J
  pub heard : List (Option J)
  pub told : List (Written J)

pub record Server {ℓ κ} (J : Type ℓ) (S : Type κ) : Type (ℓ ⊔ κ) where
  pub state : S
  pub sessions : List (Session J)

abbrev pub started {ℓ κ} : {J : Type ℓ} {S : Type κ} → S → Server J S
started s = record { state = s; sessions = [] }

-- How a read ends. A message that is no JSON is `none`.
pub data Received {ℓ} (J : Type ℓ) : Type ℓ where
  closed : Received J
  failed : Received J
  received : Option J → Received J

-- A callback with its outcome, of the server or of the session with a number.
pub data Event {ℓ} (J : Type ℓ) : Type ℓ where
  accepts : Bool → Event J
  opens : ℕ → Bool → Event J
  reads : ℕ → Received J → Event J
  writes : ℕ → Bool → Event J

module _ {ℓ} {J : Type ℓ} where
  abbrev pub new_session : Session J
  new_session = record { stage = accepting; heard = []; told = [] }

  -- `Session::onAccept`, which reads the first message.
  abbrev pub opened_in : Stage J → Bool → Stage J
  opened_in accepting true = reading
  opened_in accepting false = ended
  opened_in stage ok = stage

  -- `Session::onWrite`, which reads the next message.
  abbrev pub written_in : Stage J → Bool → Session J → Session J
  written_in (writing answer) true session = record session {
    stage = reading;
    told = session.told ++ (answer ∷ []);
  }
  written_in (writing answer) false session = record session { stage = ended }
  written_in stage ok session = session

  module _ {κ} {S : Type κ} (json : Json J) (r : MethodRegistry (Handler J S)) where
    -- `Session::onRead`, which writes the answer.
    abbrev pub read_in : Stage J → Received J → S → Session J → Session J × S
    read_in reading closed s session = (record session { stage = ended }, s)
    read_in reading failed s session = (record session { stage = ended }, s)
    read_in reading (received text) s session =
        let (answer, s') = on_read json r s text in
        (record session { stage = writing answer; heard = session.heard ++ (text ∷ []) }, s')
    read_in stage ending s session = (session, s)

    abbrev pub change_at :
        ℕ → (S → Session J → Session J × S) → S → List (Session J) → List (Session J) × S
    change_at n change s [] = ([], s)
    change_at zero change s (session ∷ sessions) =
        let (session', s') = change s session in (session' ∷ sessions, s')
    change_at (suc n) change s (session ∷ sessions) =
        let (sessions', s') = change_at n change s sessions in (session ∷ sessions', s')

    abbrev pub at_session : ℕ → (S → Session J → Session J × S) → Server J S → Server J S
    at_session n change server =
        let (sessions, state) = change_at n change server.state server.sessions in
        record { state = state; sessions = sessions }

    -- `Server::onAccept` and the callbacks of the sessions. The server accepts the next one in any case.
    unfoldable pub step : Event J → Server J S → Server J S
    step (accepts true) server = record server { sessions = server.sessions ++ (new_session ∷ []) }
    step (accepts false) server = server
    step (opens n ok) server =
        at_session n (λ s session. (record session { stage = opened_in session.stage ok }, s))
          server
    step (reads n ending) server =
        at_session n (λ s session. read_in session.stage ending s session) server
    step (writes n ok) server =
        at_session n (λ s session. (written_in session.stage ok session, s)) server

    unfoldable pub run : List (Event J) → Server J S → Server J S
    run [] server = server
    run (event ∷ events) server = run events (step event server)
