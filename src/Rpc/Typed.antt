-- ===== src/Rpc/Typed.antt =====
-- A request that conforms to the registered schema is answered in the registered form.
use architecture_course.Prelude.{
  ap, string_eq, String, some, true, false, not, ◌||◌, ◌≡◌, refl, arith, inl, inr, ◌⊎◌, All,
}
use architecture_course.Prelude.Int.{pos, ℤ}
use architecture_course.Prelude.Map.{values, insert}
use architecture_course.Prelude.Json.{Json}
use architecture_course.Rpc.Secrets.{
  DataStore, RpcAnswer, success, listed, counted, rpc_error, type_error, access_denied,
  data_not_found, data_already_exists,
}
use architecture_course.Rpc.Session.{
  is_text, is_string, Handler, language_of, Response, result_response, error_response, respond,
  call_method, process_request, field_or_null, Json as Values,
}
use architecture_course.Rpc.Schemas.{
  manage_required, manage_properties, list_properties, list_required, stats_properties,
  stats_required, list_params_schema, stats_params_schema, manage_params_schema,
}
use architecture_course.Rpc.Registry.{
  MethodInfo, get_method, has_method, set_error_messages, set_error_message, register_method,
}
use architecture_course.Rpc.Explained.{registry}
use architecture_course.Rpc.Answers.{is_request}
use architecture_course.Prelude.Map.Laws.{lookup-All}
use architecture_course.Rpc.Methods.{server_registry}
use architecture_course.Rpc.Fitting.{object_lem, language_lem}
use architecture_course.Rpc.Expected.{
  IsExpected, manage_method-IsExpected, list_method-IsExpected, stats_method-IsExpected,
}
use architecture_course.Rpc.Conforming.{conforms, read_shape}

module _ {ℓ} {J : Type ℓ} (json : Values J) where
  open json use {is_object, has_key, field, text}

  -- What a method makes of parameters that conform.
  record IsTyped (m : MethodInfo (Handler J DataStore)) (s : DataStore) (params : J) : Type 0 where
    spoken : (language : String) × (language_of json (registry json) params ≡ some language)
    expected : (language : String) → IsExpected m.result_schema (m.handler s params language).0

  methods-IsTyped :
      All
        (λ (m : MethodInfo (Handler J DataStore)).
          (s : DataStore) (params : J)
          → conforms (read_shape json) m.params_schema params ≡ true
          → IsTyped m s params)
        (values (registry json).methods)
  unfolding server_registry values insert set_error_messages set_error_message register_method
      manage_params_schema list_params_schema stats_params_schema
  methods-IsTyped = (
    λ s params h.
        let ((a, (b, (c, (d, (fits, more))))), keys) =
          object_lem json params manage_properties manage_required h in
        record {
          spoken = language_lem json (registry json) params fits;
          expected = λ language. manage_method-IsExpected json s params h;
        },
    (
      λ s params h.
          let ((a, (fits, more)), keys) = object_lem json params list_properties list_required h in
          record {
            spoken = language_lem json (registry json) params fits;
            expected = λ language. list_method-IsExpected json s params h;
          },
      (
        λ s params h.
            let ((a, (fits, more)), keys) =
              object_lem json params stats_properties stats_required h in
            record {
              spoken = language_lem json (registry json) params fits;
              expected = λ language. stats_method-IsExpected json s params h;
            },
        tt,
      ),
    ),
  )

  -- A response with the id, whose result conforms to the schema or whose error is about the data or the
  -- rights.
  abbrev pub IsTypedResponse : Json ℤ → J → Response J → Type ℓ
  IsTypedResponse schema id (result_response answer to) = (to ≡ id) × IsExpected schema answer
  IsTypedResponse schema id (error_response code message to) =
      (to ≡ id)
      × ((code ≡ pos access_denied)
          ⊎ (code ≡ pos data_not_found)
          ⊎ (code ≡ pos data_already_exists))

  respond-IsTypedResponse :
      (schema : Json ℤ) (id : J) (answer : RpcAnswer)
      → IsExpected schema answer
      → IsTypedResponse schema id (respond json (registry json) id answer)
  unfolding respond
  respond-IsTypedResponse schema id (success message data_text) h = (refl, h)
  respond-IsTypedResponse schema id (listed ids) h = (refl, h)
  respond-IsTypedResponse schema id (counted stats) h = (refl, h)
  respond-IsTypedResponse schema id (rpc_error code message) (inl e) = (refl, inl (ap pos e))
  respond-IsTypedResponse schema id (rpc_error code message) (inr (inl e)) =
      (refl, inr (inl (ap pos e)))
  respond-IsTypedResponse schema id (rpc_error code message) (inr (inr e)) =
      (refl, inr (inr (ap pos e)))
  respond-IsTypedResponse schema id type_error h = absurd h

  call_method-IsTypedResponse :
      (s : DataStore) (id params : J) (name : String) (method : MethodInfo (Handler J DataStore))
      → get_method name (registry json) ≡ some method
      → conforms (read_shape json) method.params_schema params ≡ true
      → IsTypedResponse method.result_schema id
          (call_method json (registry json) s id params name).0
  unfolding call_method has_method get_method
  call_method-IsTypedResponse s id params name method f h =
      let typed =
        lookup-All
          (λ (m : MethodInfo (Handler J DataStore)).
            (s : DataStore) (params : J)
            → conforms (read_shape json) m.params_schema params ≡ true
            → IsTyped m s params)
          name (registry json).methods methods-IsTyped f s params h in
      let (language, e) = typed.spoken in
      rw (call_method, e, f)
        (respond-IsTypedResponse method.result_schema id (method.handler s params language).0
          (typed.expected language))

-- A request whose method is registered and whose parameters conform to the method's schema is answered
-- with its own id: by a result, which conforms to the method's schema of results, or by one of the
-- errors for rights that do not suffice, an id that is not stored and an id that is. It is never
-- answered with the errors for a member that is missing, is no text or is no action.
pub process_request-IsTypedResponse {ℓ} :
    {J : Type ℓ} (json : Values J) (s : DataStore) (q : J) (name : String)
    (method : MethodInfo (Handler J DataStore))
    → is_request json q ≡ true
    → json.text (json.field "method" q) ≡ some name
    → get_method name (registry json) ≡ some method
    → conforms
        (read_shape json)
        method.params_schema
        (field_or_null json (registry json) "params" q)
      ≡ true
    → IsTypedResponse json method.result_schema
        (field_or_null json (registry json) "id" q)
        (process_request json (registry json) s q).0
unfolding process_request
process_request-IsTypedResponse json s q name method good e f h =
    let accepted : not (json.is_object q)
          || not (json.has_key "jsonrpc" q)
          || not (is_text "2.0" (json.text (json.field "jsonrpc" q)))
          || not (json.has_key "method" q)
          || not (is_string (json.text (json.field "method" q)))
        ≡ false =
      ground (arith, good) in
    rw (process_request, accepted, e)
      (call_method-IsTypedResponse json s (field_or_null json (registry json) "id" q)
        (field_or_null json (registry json) "params" q) name method f h)
