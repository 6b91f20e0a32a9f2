-- ===== src/Rpc/Tests.antt =====
-- A store with two secrets, and the theorems at it.
use architecture_course.Prelude.Decimal.{to_string}
use architecture_course.Prelude.Decimal.Signed.{signed_to_string}
use architecture_course.Rpc.Session.{process_request, call_method, language_of}
use architecture_course.Rpc.Registry.{
  has_method, set_error_message, register_method, get_method, message_key,
}
use architecture_course.Prelude.Map.{insert}
use architecture_course.Rpc.Secrets.{handle_manage_secret_data, handle_delete_data}
use architecture_course.Rpc.Messages.{get_error_message-set_error_messages, latest, spoken}
use architecture_course.Prelude.Int.{pos, negsuc}
use mathlib.Core.Option.{some-injective}
use architecture_course.Rpc.Schemas.{manage_params_schema, manage_result_schema}
use architecture_course.Rpc.Conforming.{conforms, read_shape}
use architecture_course.Rpc.Typed.{IsTypedResponse, process_request-IsTypedResponse}
use architecture_course.Rpc.Methods.{manage_method, params_of, secret_messages, server_registry}
use architecture_course.Rpc.Values.{
  Fields, nil, word, cons, array, member, request, Value, nothing, values_json,
}
use architecture_course.Rpc.Server.{
  Session, Event, accepts, opens, reads, received, writes, started, step, run,
}
use architecture_course.Rpc.Following.{IsOrderly, run-started-IsOrderly}
use architecture_course.Rpc.Keeping.{run_keeps, IsModestEvent}
use architecture_course.Rpc.Registry.{set_error_messages, get_error_message}
use architecture_course.Rpc.Answers.{process_batch_request-Answered, Answered}
use architecture_course.Rpc.Session.{error_response, process_batch_request}
use architecture_course.Prelude.{
  ℕ, eq_iff, arith, none, Option, All, List, string_eq, String, some, [], ◌∷◌, length, map, true,
  false, ◌≡◌, ◌≢◌, refl, inl, inr,
}
use architecture_course.Prelude.Map.{values, Map, lookup, contains}
use architecture_course.Rpc.Secrets.{
  user, admin, SecretData, DataStore, success, counted, Stats, Params, handle_get_data, accessible,
  manage, handle_get_stats, string_to_access_level,
}
use architecture_course.Rpc.Access.{AgreeFor, reads_agree}

abbrev note : SecretData
note = record { id = "note"; data_text = "lunch at 12"; min_access_level = user; owner = "user" }

abbrev code_word : SecretData
code_word = record { id = "code"; data_text = "xyzzy"; min_access_level = admin; owner = "user" }

abbrev store : DataStore
store = ("note", note) ∷ ("code", code_word) ∷ []

abbrev other_store : DataStore
other_store = ("note", note) ∷ ("code", record code_word { data_text = "plugh" }) ∷ []

stores_agree : AgreeFor user store other_store
stores_agree = (refl, refl, inr refl, (refl, refl, inl refl, tt))

reads_agree_example :
    (handle_get_data store "code" user ≡ handle_get_data other_store "code" user)
    × (accessible user store ≡ accessible user other_store)
reads_agree_example = reads_agree user store other_store stores_agree "code"

code_stored : lookup "code" store ≡ some code_word
unfolding lookup
code_stored = refl

-- The parameters of a request as a table of texts.
abbrev tables : Params (Map String String)
tables = record {
  has_key = λ key params. contains key params;
  text_of = λ key params. lookup key params;
}

abbrev figures : Stats
figures = record {
  total_data = 2;
  user_accessible = 1;
  admin_accessible = 2;
  super_admin_accessible = 2;
}

admin_counts : handle_get_stats tables store (("accessLevel", "admin") ∷ []) ≡ counted figures
unfolding handle_get_stats string_to_access_level lookup values
admin_counts = refl

get_error_message-set_error_messages_example :
    get_error_message {H = ℕ} (pos 105) "fr-FR" (
      set_error_messages secret_messages
        (record { methods = []; error_messages = []; default_language = "en-US" }))
    ≡ spoken
        (latest secret_messages (pos 105) "fr-FR" none)
        (latest secret_messages (pos 105) "en-US" none)
get_error_message-set_error_messages_example =
    get_error_message-set_error_messages {H = ℕ} secret_messages [] "en-US" (pos 105) "fr-FR"

-- An administrator tries to delete an entry, in French, and then calls a method that is not there.
abbrev delete_request : Value
delete_request = request "1" "manageSecretData" (
    member "action" (word "delete") (
      member "dataID" (word "code")
        (member "accessLevel" (word "admin") (member "language" (word "fr-FR") Fields.done))))

abbrev lost_request : Value
lost_request = request "2" "dropSecretData" (member "language" (word "ru-RU") Fields.done)

batch_answers :
    (process_batch_request values_json
      (server_registry values_json)
      store
      (delete_request ∷ lost_request ∷ nothing ∷ [])).0
    ≡ error_response (pos 100) "Access denied" (word "1")
      ∷ error_response (negsuc 32600) "Метод не найден" (word "2")
      ∷ error_response (negsuc 32599) "Invalid Request" nothing
      ∷ []
unfolding process_batch_request process_request call_method get_error_message language_of has_method
    lookup server_registry set_error_messages set_error_message register_method insert get_method
    message_key handle_manage_secret_data signed_to_string manage to_string handle_delete_data
    string_to_access_level
batch_answers = refl

process_batch_request-Answered_example :
    Answered values_json
      (delete_request ∷ lost_request ∷ nothing ∷ [])
      (process_batch_request values_json
        (server_registry values_json)
        store
        (delete_request ∷ lost_request ∷ nothing ∷ [])).0
process_batch_request-Answered_example =
    process_batch_request-Answered values_json store (delete_request ∷ lost_request ∷ nothing ∷ [])

-- Two clients: the first sends the batch and is lost while the answer is written, the second a text that
-- is no JSON and then the request.
abbrev events : List (Event Value)
events =
    accepts true
    ∷ accepts false
    ∷ opens 0 true
    ∷ accepts true
    ∷ reads 0 (received (some (array (cons delete_request (cons lost_request nil)))))
    ∷ opens 1 true
    ∷ reads 1 (received none)
    ∷ writes 1 true
    ∷ writes 0 false
    ∷ reads 1 (received (some delete_request))
    ∷ []

not_super : ◌≢◌ {A = String} "admin" "superAdmin"
not_super = ground (arith, eq_iff "admin" "superAdmin")

events_modest : All (IsModestEvent values_json) events
events_modest =
    let admin_ne_super : ◌≢◌ {A = Option String} (some "admin") (some "superAdmin") =
      λ e. not_super (some-injective _ _ e) in
    (
      tt,
      (
        tt,
        (
          tt,
          (
            tt,
            ((admin_ne_super, (λ e. cc, tt)), (tt, (tt, (tt, (tt, ((admin_ne_super, tt), tt)))))),
          ),
        ),
      ),
    )

run_keeps_example :
    lookup "code" (run values_json (server_registry values_json) events (started store)).state
    ≡ some code_word
run_keeps_example =
    run_keeps "code" code_word values_json events (started store) events_modest code_stored

run-started-IsOrderly_example :
    All
      (IsOrderly values_json (server_registry values_json))
      (run values_json (server_registry values_json) events (started store)).sessions
run-started-IsOrderly_example =
    run-started-IsOrderly values_json (server_registry values_json) events store

-- The first session has ended without an answer, the second writes its second answer.
two_sessions :
    map {B = ℕ × ℕ}
      (λ (session : Session Value). (length session.heard, length session.told))
      (run values_json (server_registry values_json) events (started store)).sessions
    ≡ (1, 0) ∷ (2, 1) ∷ []
unfolding run step
two_sessions = refl

-- A request for the code word, which conforms to the schema.
abbrev code_params : Value
code_params = Value.object (
    member "action" (word "get") (
      member "dataID" (word "code")
        (member "accessLevel" (word "superAdmin") (member "language" (word "es-ES") Fields.done))))

abbrev code_request : Value
code_request = request "3" "manageSecretData" (
    member "action" (word "get") (
      member "dataID" (word "code")
        (member "accessLevel" (word "superAdmin") (member "language" (word "es-ES") Fields.done))))

manage_known :
    get_method "manageSecretData" (server_registry values_json) ≡ some (manage_method values_json)
unfolding get_method lookup server_registry register_method insert set_error_messages
    set_error_message
manage_known = refl

code_params-conform : conforms (read_shape values_json) manage_params_schema code_params ≡ true
unfolding manage_params_schema
code_params-conform = refl

process_request-IsTypedResponse_example :
    IsTypedResponse values_json manage_result_schema
      (word "3")
      (process_request values_json (server_registry values_json) store code_request).0
process_request-IsTypedResponse_example =
    process_request-IsTypedResponse values_json store code_request "manageSecretData"
      (manage_method values_json) refl refl manage_known code_params-conform

-- A level and a language that the schema does not list are taken as well, for a user and for English.
abbrev odd_params : Value
odd_params = Value.object (
    member "action" (word "get") (
      member "dataID" (word "note")
        (member "accessLevel" (word "root") (member "language" (word "xx") Fields.done))))

odd_answer :
    (conforms (read_shape values_json) manage_params_schema odd_params ≡ false)
    × (handle_manage_secret_data (params_of values_json) store odd_params
        ≡ (success "Data retrieved successfully" (some "lunch at 12"), store))
unfolding manage_params_schema handle_manage_secret_data manage handle_get_data lookup
    string_to_access_level
odd_answer = (refl, refl)
