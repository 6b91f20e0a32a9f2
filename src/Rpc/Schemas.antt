-- ===== src/Rpc/Schemas.antt =====
-- The schemas that the methods of secret_data_manager.cpp are registered with.
use architecture_course.Prelude.{String, List, [], ◌∷◌}
use architecture_course.Prelude.Int.{ℤ}
use architecture_course.Prelude.Json.{Json, text, object, array, braced, pushed}

abbrev pub texts : List String → Json ℤ
texts words = array (pushed (λ word. text word) words)

-- `{{"type", "string"}}`, and the same with an `enum`
abbrev pub text_schema : Json ℤ
text_schema = object (braced (("type", text "string") ∷ []))

abbrev pub choice_schema : List String → Json ℤ
choice_schema words = object (braced (("type", text "string") ∷ ("enum", texts words) ∷ []))

abbrev pub language_schema : Json ℤ
language_schema = object (
    braced (
      ("type", text "string")
      ∷ ("enum", texts ("en-US" ∷ "ru-RU" ∷ "fr-FR" ∷ "es-ES" ∷ []))
      ∷ ("default", text "en-US")
      ∷ []))

abbrev pub object_schema : List (String × Json ℤ) → List String → Json ℤ
object_schema properties required = object (
    braced (
      ("type", text "object")
      ∷ ("properties", object (braced properties))
      ∷ ("required", texts required)
      ∷ []))

abbrev pub actions : List String
actions = "add" ∷ "get" ∷ "delete" ∷ []

abbrev pub levels : List String
levels = "user" ∷ "admin" ∷ "superAdmin" ∷ []

abbrev pub high_levels : List String
high_levels = "admin" ∷ "superAdmin" ∷ []

abbrev pub manage_properties : List (String × Json ℤ)
manage_properties =
    ("action", choice_schema actions)
    ∷ ("dataID", text_schema)
    ∷ ("userData", text_schema)
    ∷ ("accessLevel", choice_schema levels)
    ∷ ("language", language_schema)
    ∷ []

abbrev pub manage_required : List String
manage_required = "action" ∷ "dataID" ∷ "accessLevel" ∷ []

unfoldable pub manage_params_schema : Json ℤ
manage_params_schema = object_schema manage_properties manage_required

unfoldable pub manage_result_schema : Json ℤ
manage_result_schema = object (
    braced (
      ("type", text "object")
      ∷ (
        "properties",
        object (
            braced (
              ("status", choice_schema ("success" ∷ "failure" ∷ []))
              ∷ ("message", text_schema)
              ∷ ("data", object (braced (("type", texts ("string" ∷ "null" ∷ [])) ∷ [])))
              ∷ [])),
      )
      ∷ []))

abbrev pub list_properties : List (String × Json ℤ)
list_properties = ("accessLevel", choice_schema levels) ∷ ("language", language_schema) ∷ []

abbrev pub list_required : List String
list_required = "accessLevel" ∷ []

unfoldable pub list_params_schema : Json ℤ
list_params_schema = object_schema list_properties list_required

abbrev pub stats_properties : List (String × Json ℤ)
stats_properties = ("accessLevel", choice_schema high_levels) ∷ ("language", language_schema) ∷ []

abbrev pub stats_required : List String
stats_required = "accessLevel" ∷ []

unfoldable pub stats_params_schema : Json ℤ
stats_params_schema = object_schema stats_properties stats_required
