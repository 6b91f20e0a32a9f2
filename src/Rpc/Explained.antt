-- ===== src/Rpc/Explained.antt =====
-- The responses of the server to any request: their ids and the messages of the errors.
use architecture_course.Prelude.{
  string_eq, nat_eq, ℕ, String, some, List, [], ◌∷◌, true, false, ◌≡◌, ◌≢◌, refl, arith,
  Option-cases, inl, inr, ◌==◌, eq_iff, has, All, All-has, All-count_if, is_some, count_if,
}
use architecture_course.Prelude.Int.{ℤ, pos}
use architecture_course.Prelude.Map.{lookup, insert, values}
use architecture_course.Prelude.Map.Laws.{lookup-All}
use architecture_course.Prelude.Decimal.{to_string}
use architecture_course.Prelude.Decimal.Signed.{signed_to_string}
use architecture_course.Rpc.Secrets.{
  DataStore, AccessLevel, RpcAnswer, success, listed, counted, rpc_error, type_error, Params,
  handle_manage_secret_data, handle_list_secret_data, handle_get_stats, manage, handle_add_data,
  handle_get_data, handle_delete_data, string_to_access_level,
}
use architecture_course.Rpc.Registry.{
  MethodInfo, MethodRegistry, message_key, get_error_message, set_error_messages, set_error_message,
  register_method, method_not_found, internal_error, invalid_request,
}
use architecture_course.Rpc.Methods.{server_registry, params_of}
use architecture_course.Rpc.Session.{
  Json, Handler, Response, result_response, error_response, respond,
}

-- The codes of the errors that the handlers throw.
abbrev app_codes : List ℕ
app_codes = 100 ∷ 102 ∷ 103 ∷ 104 ∷ 105 ∷ []

abbrev pub IsAppError : RpcAnswer → Type 0
IsAppError (rpc_error code message) = has code app_codes ≡ true
IsAppError answer = Unit

manage-IsAppError :
    (s : DataStore) (action id user_data : String) (level : AccessLevel)
    → IsAppError (manage s action id level user_data).0
unfolding manage handle_add_data handle_get_data handle_delete_data has
manage-IsAppError s action id user_data level = ground arith

module _ {ℓ} {J : Type ℓ} (params_of : Params J) (s : DataStore) (params : J) where
  handle_manage-IsAppError : IsAppError (handle_manage_secret_data params_of s params).0
  unfolding handle_manage_secret_data has
  handle_manage-IsAppError = grind (
    arith,
    λ (action id user_data level : String).
        manage-IsAppError s action id user_data (string_to_access_level level),
  )

  handle_list-IsAppError : IsAppError (handle_list_secret_data params_of s params)
  unfolding handle_list_secret_data has
  handle_list-IsAppError = ground arith

  handle_stats-IsAppError : IsAppError (handle_get_stats params_of s params)
  unfolding handle_get_stats has
  handle_stats-IsAppError = ground arith

is_known : (message : String) → (message == "Unknown error") ≡ false → message ≢ "Unknown error"
is_known message h e = ground (arith, eq_iff message "Unknown error")

module _ {ℓ} {J : Type ℓ} (json : Json J) where
  abbrev pub registry : MethodRegistry (Handler J DataStore)
  registry = server_registry json

  app_messages :
      All
        (λ (c : ℕ). (get_error_message (pos c) "en-US" registry == "Unknown error") ≡ false)
        app_codes
  unfolding server_registry get_error_message message_key lookup set_error_messages
      set_error_message insert register_method signed_to_string to_string
  app_messages = (refl, (refl, (refl, (refl, (refl, tt)))))

  count_unknown :
      count_if (λ (m : String). m == "Unknown error") (values registry.error_messages) ≡ 0
  unfolding server_registry message_key values insert set_error_messages set_error_message
      register_method signed_to_string to_string
  count_unknown = refl

  -- The codes of `Errors` that the session sends have a message in every language.
  pub in_english :
      All
        (λ (c : ℤ). is_some (lookup (message_key c "en-US") registry.error_messages) ≡ true)
        (method_not_found ∷ internal_error ∷ invalid_request ∷ [])
  unfolding server_registry message_key lookup set_error_messages set_error_message insert
      register_method signed_to_string to_string
  in_english = (refl, (refl, (refl, tt)))

  default_english : registry.default_language ≡ "en-US"
  unfolding server_registry set_error_messages set_error_message register_method
  default_english = refl

  found_known :
      (key message : String)
      → lookup key registry.error_messages ≡ some message
      → message ≢ "Unknown error"
  found_known key message h = is_known message (
      lookup-All (λ (m : String). (m == "Unknown error") ≡ false) key registry.error_messages
        (All-count_if _ _ count_unknown) h)

  -- What is registered in English is never answered by the last resort, whatever the language.
  pub english_known :
      (c : ℤ) (language : String)
      → is_some (lookup (message_key c "en-US") registry.error_messages) ≡ true
      → get_error_message c language registry ≢ "Unknown error"
  unfolding get_error_message
  english_known c language h =
      elim (Option-cases (lookup (message_key c language) registry.error_messages)) [
        | inr (message, e) ↦ rw (e, get_error_message) (found_known _ message e)
        | inl e ↦ elim (Option-cases (lookup (message_key c "en-US") registry.error_messages)) [
          | inl f ↦ absurd (ground arith)
          | inr (message, f) ↦
              rw (e, default_english, f, get_error_message) (found_known _ message f)
        ]
      ]

  -- An error has a message, in English unless it says that the method is unknown.
  abbrev pub IsExplained : Response J → Type 0
  IsExplained (result_response answer id) = Unit
  IsExplained (error_response code message id) =
      (message ≢ "Unknown error")
      × (code ≢ method_not_found → message ≡ get_error_message code "en-US" registry)

  abbrev pub response_id : Response J → J
  response_id (result_response answer id) = id
  response_id (error_response code message id) = id

  pub record IsAnswer (id : J) (p : Response J) : Type ℓ where
    pub identified : response_id p ≡ id
    pub explained : IsExplained p

  pub english-IsAnswer :
      (id : J) (c : ℤ)
      → get_error_message c "en-US" registry ≢ "Unknown error"
      → IsAnswer id (error_response c (get_error_message c "en-US" registry) id)
  english-IsAnswer id c known = record { identified = refl; explained = (known, λ _. refl) }

  pub respond-IsAnswer :
      (id : J) (answer : RpcAnswer)
      → IsAppError answer
      → IsAnswer id (respond json registry id answer)
  unfolding respond
  respond-IsAnswer id (success a b) h = record { identified = refl; explained = tt }
  respond-IsAnswer id (listed ids) h = record { identified = refl; explained = tt }
  respond-IsAnswer id (counted stats) h = record { identified = refl; explained = tt }
  respond-IsAnswer id (rpc_error code message) h = english-IsAnswer id (pos code) (
      is_known _ (
        All-has (λ (c : ℕ). (get_error_message (pos c) "en-US" registry == "Unknown error") ≡ false)
          code app_codes app_messages h))
  respond-IsAnswer id type_error h =
      english-IsAnswer id internal_error (english_known internal_error "en-US" in_english.1.0)

  -- Each registered handler throws only errors of the application.
  pub methods-IsAppError :
      All
        (λ (m : MethodInfo (Handler J DataStore)).
          (s : DataStore) (params : J) (language : String)
          → IsAppError (m.handler s params language).0)
        (values registry.methods)
  unfolding server_registry values insert set_error_messages set_error_message register_method
  methods-IsAppError = (
    λ s params language. handle_manage-IsAppError (params_of json) s params,
    (
      λ s params language. handle_list-IsAppError (params_of json) s params,
      (λ s params language. handle_stats-IsAppError (params_of json) s params, tt),
    ),
  )
