-- ===== src/Rpc/Keeping.antt =====
-- What a whole run of the server does to the secrets: messages, batches of requests and the registered methods.
use architecture_course.Prelude.{
  ℕ, true, zero, suc, string_eq, String, Option, none, some, List, [], ◌∷◌, false, ◌≡◌, ◌≢◌, arith,
  Option-cases, inl, inr, eq_iff, All, ◌∙◌, ap,
}
use architecture_course.Prelude.Map.{lookup, values, insert}
use architecture_course.Prelude.Map.Laws.{lookup-All}
use architecture_course.Rpc.Secrets.{
  SecretData, DataStore, Params, is_super_admin, string_to_access_level, handle_manage_secret_data,
}
use architecture_course.Rpc.Registry.{
  MethodInfo, MethodRegistry, get_method, has_method, set_error_messages, set_error_message,
  register_method,
}
use architecture_course.Rpc.Session.{
  Json, Handler, language_of, field_or_null, call_method, process_request, process_batch_request,
  on_read, answer_json,
}
use architecture_course.Rpc.Server.{
  Stage, accepting, reading, writing, ended, Session, Server, Received, closed, failed, received,
  Event, accepts, opens, reads, writes, read_in, change_at, step, run,
}
use architecture_course.Rpc.Methods.{server_registry, params_of}
use architecture_course.Rpc.Access.{manage_keeps}

below_super :
    (level : String) → level ≢ "superAdmin" → is_super_admin (string_to_access_level level) ≡ false
unfolding string_to_access_level
below_super level h = ground (arith, eq_iff level "superAdmin")

module _ {ℓ} {J : Type ℓ} (json : Json J) where
  open json use {field, text, items}

  abbrev registry : MethodRegistry (Handler J DataStore)
  registry = server_registry json

  -- The request does not claim the level "superAdmin".
  abbrev pub IsModest : J → Type 0
  IsModest params = text (field "accessLevel" params) ≢ some "superAdmin"

  abbrev params_in : J → J
  params_in = field_or_null json registry "params"

  abbrev pub requests_from : J → Option (List J) → List J
  requests_from message none = message ∷ []
  requests_from message (some qs) = qs

  -- The requests that a message holds: none if it is no JSON, those of an array, or itself.
  abbrev pub requests_of : Option J → List J
  requests_of none = []
  requests_of (some message) = requests_from message (items message)

  abbrev pub IsModestMessage : Option J → Type 0
  IsModestMessage message = All (λ (q : J). IsModest (params_in q)) (requests_of message)

  abbrev IsModestReceived : Received J → Type 0
  IsModestReceived closed = Unit
  IsModestReceived failed = Unit
  IsModestReceived (received text) = IsModestMessage text

  abbrev pub IsModestEvent : Event J → Type 0
  IsModestEvent (reads n ending) = IsModestReceived ending
  IsModestEvent event = Unit

module _ (k : String) (x : SecretData) where
  abbrev Stores : DataStore → Type 0
  Stores s = lookup k s ≡ some x

  handle_manage_keeps {ℓ} :
      {J : Type ℓ} (params_of : Params J) (s : DataStore) (params : J)
      → params_of.text_of "accessLevel" params ≢ some "superAdmin"
      → Stores s
      → Stores (handle_manage_secret_data params_of s params).1
  unfolding handle_manage_secret_data
  handle_manage_keeps params_of s params modest h =
      elim (Option-cases (params_of.text_of "accessLevel" params)) [
        | inl e ↦ ground (arith, h, e)
        | inr (level, e) ↦
            let low : is_super_admin (string_to_access_level level) ≡ false =
              below_super level (λ same. modest (e ∙ ap some same)) in
            grind (
              arith,
              λ (action id user_data : String).
                  manage_keeps s action id user_data (string_to_access_level level) k x low h,
            )
      ]

  module _ {ℓ} {J : Type ℓ} (json : Json J) where
    open json use {items}

    methods_keep :
        All
          (λ (m : MethodInfo (Handler J DataStore)).
            (s : DataStore) (params : J) (language : String)
            → IsModest json params
            → Stores s
            → Stores (m.handler s params language).1)
          (values (registry json).methods)
    unfolding server_registry values insert set_error_messages set_error_message register_method
    methods_keep = (
      λ s params language modest h. handle_manage_keeps (params_of json) s params modest h,
      (λ s params language modest h. h, (λ s params language modest h. h, tt)),
    )

    call_method_keeps :
        (s : DataStore) (id params : J) (name : String)
        → IsModest json params
        → Stores s
        → Stores (call_method json (registry json) s id params name).1
    unfolding call_method has_method get_method
    call_method_keeps s id params name modest h =
        elim (Option-cases (language_of json (registry json) params)) [
          | inl e ↦ rw (e, call_method) h
          | inr (language, e) ↦ elim (Option-cases (lookup name (registry json).methods)) [
            | inl f ↦ rw (e, f, call_method) h
            | inr (method, f) ↦
                rw (e, f, call_method)
                  (lookup-All
                    (λ (m : MethodInfo (Handler J DataStore)).
                      (s : DataStore) (params : J) (language : String)
                      → IsModest json params
                      → Stores s
                      → Stores (m.handler s params language).1)
                    name (registry json).methods methods_keep f s params language modest h)
          ]
        ]

    process_request_keeps :
        (s : DataStore) (q : J)
        → IsModest json (params_in json q)
        → Stores s
        → Stores (process_request json (registry json) s q).1
    unfolding process_request
    process_request_keeps s q modest h =
        grind (
          arith,
          λ (id : J) (name : String). call_method_keeps s id (params_in json q) name modest h,
        )

    process_batch_request_keeps :
        (qs : List J) (s : DataStore)
        → All (λ (q : J). IsModest json (params_in json q)) qs
        → Stores s
        → Stores (process_batch_request json (registry json) s qs).1
    unfolding process_batch_request
    process_batch_request_keeps [] s modest h = h
    process_batch_request_keeps (q ∷ qs) s modest h =
        process_batch_request_keeps qs (process_request json (registry json) s q).1 modest.1
          (process_request_keeps s q modest.0 h)

    answer_json_keeps :
        (s : DataStore) (message : J) (o : Option (List J))
        → All (λ (q : J). IsModest json (params_in json q)) (requests_from json message o)
        → Stores s
        → Stores (answer_json json (registry json) s message o).1
    answer_json_keeps s message none modest h = process_request_keeps s message modest.0 h
    answer_json_keeps s message (some qs) modest h = process_batch_request_keeps qs s modest h

    on_read_keeps :
        (s : DataStore) (message : Option J)
        → IsModestMessage json message
        → Stores s
        → Stores (on_read json (registry json) s message).1
    unfolding on_read
    on_read_keeps s none modest h = h
    on_read_keeps s (some message) modest h = answer_json_keeps s message (items message) modest h

    read_keeps :
        (stage : Stage J) (ending : Received J) (s : DataStore) (session : Session J)
        → IsModestReceived json ending
        → Stores s
        → Stores (read_in json (registry json) stage ending s session).1
    read_keeps reading closed s session modest h = h
    read_keeps reading failed s session modest h = h
    read_keeps reading (received text) s session modest h = on_read_keeps s text modest h
    read_keeps accepting ending s session modest h = h
    read_keeps (writing answer) ending s session modest h = h
    read_keeps ended ending s session modest h = h

    change_at_keeps :
        (n : ℕ) (change : DataStore → Session J → Session J × DataStore)
        → ((s : DataStore) (session : Session J) → Stores s → Stores (change s session).1)
        → (s : DataStore) (sessions : List (Session J)) → Stores s
        → Stores (change_at json (registry json) n change s sessions).1
    change_at_keeps n change keeps s [] h = h
    change_at_keeps zero change keeps s (session ∷ sessions) h = keeps s session h
    change_at_keeps (suc n) change keeps s (session ∷ sessions) h =
        change_at_keeps n change keeps s sessions h

    step_keeps :
        (event : Event J) (server : Server J DataStore)
        → IsModestEvent json event
        → Stores server.state
        → Stores (step json (registry json) event server).state
    unfolding step
    step_keeps (accepts true) server modest h = h
    step_keeps (accepts false) server modest h = h
    step_keeps (opens n ok) server modest h =
        change_at_keeps n _ (λ s session k. k) server.state server.sessions h
    step_keeps (reads n ending) server modest h =
        change_at_keeps n _ (λ s session k. read_keeps session.stage ending s session modest k)
          server.state server.sessions h
    step_keeps (writes n ok) server modest h =
        change_at_keeps n _ (λ s session k. k) server.state server.sessions h

    -- A server whose clients never claim the level "superAdmin" loses no secret and changes none: what is
    -- stored stays stored unchanged, whatever messages the clients send, one by one or in batches,
    -- well-formed or not, and in whatever order the sessions read and write.
    pub run_keeps :
        (events : List (Event J)) (server : Server J DataStore)
        → All (IsModestEvent json) events
        → Stores server.state
        → Stores (run json (registry json) events server).state
    unfolding run
    run_keeps [] server modest h = h
    run_keeps (event ∷ events) server modest h =
        run_keeps events (step json (registry json) event server) modest.1
          (step_keeps event server modest.0 h)
