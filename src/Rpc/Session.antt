-- ===== src/Rpc/Session.antt =====
-- The requests and the answers of session.cpp. What it reads of a JSON value is a parameter; a message
-- that is no JSON is `none`. A reply that fails to be written as text is left out.
use architecture_course.Prelude.{
  string_eq, String, Option, none, some, List, [], ◌∷◌, Bool, true, false, not, ◌||◌, ◌==◌,
  if◌then◌else◌,
}
use architecture_course.Prelude.Int.{ℤ, pos}
use architecture_course.Rpc.Secrets.{RpcAnswer, rpc_error, type_error}
use architecture_course.Rpc.Registry.{
  JsonRpcError, MethodRegistry, parse_error, invalid_request, method_not_found, internal_error,
  has_method, get_method, get_error_message,
}

-- What the session reads of a JSON value. `text` is `none` where the conversion to a text throws, and
-- `field` is `null` for a key that is not there.
pub record Json {ℓ} (J : Type ℓ) : Type ℓ where
  pub null : J
  pub is_object : J → Bool
  pub has_key : String → J → Bool
  pub field : String → J → J
  pub text : J → Option String
  pub items : J → Option (List J)

-- A response: the `result` of a method, or an error with its code and message, and the `id`.
pub data Response {ℓ} (J : Type ℓ) : Type ℓ where
  result_response : RpcAnswer → J → Response J
  error_response : ℤ → String → J → Response J

-- What is written for one message: a response, or the array of the responses to a batch.
pub data Written {ℓ} (J : Type ℓ) : Type ℓ where
  single : Response J → Written J
  batch : List (Response J) → Written J

-- A handler changes the state `S` of the one who registered it.
abbrev pub Handler {ℓ κ} : Type ℓ → Type κ → Type (ℓ ⊔ κ)
Handler J S = S → J → String → RpcAnswer × S

abbrev pub is_text : String → Option String → Bool
is_text expected none = false
is_text expected (some s) = s == expected

abbrev pub is_string : Option String → Bool
is_string none = false
is_string (some s) = true

module _ {ℓ κ} {J : Type ℓ} {S : Type κ} (json : Json J) (r : MethodRegistry (Handler J S)) where
  open json use {null, is_object, has_key, field, text, items}

  abbrev pub create_error_response : J → JsonRpcError → String → Response J
  create_error_response id error language =
      error_response error.code (get_error_message error.code language r) id

  -- The overload for a code; its message is replaced by that of the registry as well.
  abbrev pub create_code_response : J → ℤ → String → Response J
  create_code_response id code message = error_response code (get_error_message code "en-US" r) id

  -- The language of a request: `none` where it is no text and the conversion throws.
  unfoldable pub language_of : J → Option String
  language_of params =
      if is_object params
      then (if has_key "language" params then text (field "language" params) else some "en-US")
      else some "en-US"

  abbrev pub field_or_null : String → J → J
  field_or_null key request = if has_key key request then field key request else null

  -- A method's answer, or the two handlers of exceptions. The text of an exception is not sent: the
  -- registry's message for the code takes its place.
  unfoldable pub respond : J → RpcAnswer → Response J
  respond id (rpc_error code message) =
      create_error_response id (record { code = pos code; message = message }) "en-US"
  respond id type_error =
      create_error_response id (record { code = internal_error; message = "type error" }) "en-US"
  respond id answer = result_response answer id

  -- `processRequest` once the structure of the request is checked.
  unfoldable pub call_method : S → J → J → String → Response J × S
  unfolding respond
  call_method s id params method_name = elim (language_of params) [
    | none ↦ (respond id type_error, s)
    | some language ↦
        if not (has_method method_name r)
        then (
          create_error_response id
              (record { code = method_not_found; message = "Method not found" }) language,
          s,
        )
        else elim (get_method method_name r) [
          | none ↦ (respond id type_error, s)
          | some method ↦
              let (answer, s') = method.handler s params language in (respond id answer, s')
        ]
  ]

  unfoldable pub process_request : S → J → Response J × S
  process_request s request =
      if not (is_object request)
        || not (has_key "jsonrpc" request)
        || not (is_text "2.0" (text (field "jsonrpc" request)))
        || not (has_key "method" request)
        || not (is_string (text (field "method" request)))
      then (
        create_error_response null (record { code = invalid_request; message = "Invalid Request" })
            "en-US",
        s,
      )
      else elim (text (field "method" request)) [
        | none ↦ (respond (field_or_null "id" request) type_error, s)
        | some method_name ↦
            call_method s (field_or_null "id" request) (field_or_null "params" request) method_name
      ]

  -- The loop of `processBatchRequest`. A response is never null, so each one is kept.
  unfoldable pub process_batch_request : S → List J → List (Response J) × S
  process_batch_request s [] = ([], s)
  process_batch_request s (request ∷ requests) =
      let (response, s') = process_request s request in
      let (responses, s'') = process_batch_request s' requests in (response ∷ responses, s'')

  abbrev pub answer_json : S → J → Option (List J) → Written J × S
  answer_json s request none =
      let (response, s') = process_request s request in (single response, s')
  answer_json s request (some requests) =
      let (responses, s') = process_batch_request s requests in (batch responses, s')

  -- `onRead` without an error of the socket.
  unfoldable pub on_read : S → Option J → Written J × S
  on_read s none = (single (create_code_response null parse_error "Parse error"), s)
  on_read s (some request) = answer_json s request (items request)
