-- ===== src/Rpc/Results.antt =====
-- The JSON of the answers: the results of the methods (secret_data_manager.cpp) and the responses
-- (session.cpp).
use architecture_course.Prelude.{ℕ, String, Option, none, some, [], ◌∷◌, length}
use architecture_course.Prelude.Int.{ℤ}
use architecture_course.Prelude.Json.{Json, null, text, integer, object, array, braced, pushed}
use architecture_course.Rpc.Secrets.{
  Stats, RpcAnswer, success, listed, counted, rpc_error, type_error,
}

abbrev pub text_or_null : Option String → Json ℤ
text_or_null none = null
text_or_null (some s) = text s

abbrev pub stats_to_json : ℕ → Stats → Json ℤ
stats_to_json now stats = object (
    braced (
      ("total_data", integer stats.total_data)
      ∷ ("user_accessible", integer stats.user_accessible)
      ∷ ("admin_accessible", integer stats.admin_accessible)
      ∷ ("super_admin_accessible", integer stats.super_admin_accessible)
      ∷ ("created_at", integer now)
      ∷ []))

-- The JSON that a handler returns, `now` being the time; an exception returns none.
abbrev pub result_json : ℕ → RpcAnswer → Option (Json ℤ)
result_json now (success message data_text) = some (
    object (
      braced (
        ("status", text "success")
        ∷ ("message", text message)
        ∷ ("data", text_or_null data_text)
        ∷ [])))
result_json now (listed ids) = some (
    object (
      braced (
        ("status", text "success")
        ∷ ("message", text "Data list retrieved successfully")
        ∷ ("data", array (pushed (λ id. text id) ids))
        ∷ ("count", integer (length ids))
        ∷ [])))
result_json now (counted stats) = some (
    object (
      braced (
        ("status", text "success")
        ∷ ("message", text "Statistics retrieved successfully")
        ∷ ("stats", stats_to_json now stats)
        ∷ [])))
result_json now (rpc_error code message) = none
result_json now type_error = none
