-- ===== src/Rpc/Registry.antt =====
-- `MethodRegistry` (method_registry.h, method_registry.cpp). The handlers are values of any type.
use Prim.Native.String.{◌++◌ as str_append}
use architecture_course.Prelude.{string_eq, String, Option, none, some, List, [], ◌∷◌, Bool}
use architecture_course.Prelude.Int.{ℤ, negsuc}
use architecture_course.Prelude.Decimal.Signed.{signed_to_string}
use architecture_course.Prelude.Json.{Json}
use architecture_course.Prelude.Map.{Map, lookup, insert, contains, keys}

-- `JsonRpcError`. Its `data` is null wherever the sources build one.
pub record JsonRpcError : Type 0 where
  pub code : ℤ
  pub message : String

-- The codes of the namespace `Errors`.
abbrev pub parse_error : ℤ
parse_error = negsuc 32699

abbrev pub invalid_request : ℤ
invalid_request = negsuc 32599

abbrev pub method_not_found : ℤ
method_not_found = negsuc 32600

abbrev pub invalid_params : ℤ
invalid_params = negsuc 32601

abbrev pub internal_error : ℤ
internal_error = negsuc 32602

pub record MethodInfo {ℓ} (H : Type ℓ) : Type ℓ where
  pub name : String
  pub description : String
  pub params_schema : Json ℤ
  pub result_schema : Json ℤ
  pub handler : H
  pub allowed_errors : List ℤ

pub record MethodRegistry {ℓ} (H : Type ℓ) : Type ℓ where
  pub methods : Map String (MethodInfo H)
  pub error_messages : Map String String
  pub default_language : String

-- `std::to_string(code) + "_" + language`
unfoldable pub message_key : ℤ → String → String
message_key code language = str_append (signed_to_string code) (str_append "_" language)

module _ {ℓ} {H : Type ℓ} where
  unfoldable pub register_method : MethodInfo H → MethodRegistry H → MethodRegistry H
  register_method method r = record r { methods = insert method.name method r.methods }

  unfoldable pub has_method : String → MethodRegistry H → Bool
  has_method name r = contains name r.methods

  -- `none` is the `std::runtime_error` of a method that is not there.
  unfoldable pub get_method : String → MethodRegistry H → Option (MethodInfo H)
  get_method name r = lookup name r.methods

  unfoldable pub get_method_names : MethodRegistry H → List String
  unfolding keys
  get_method_names r = keys r.methods

  unfoldable pub set_error_message : ℤ → String → String → MethodRegistry H → MethodRegistry H
  set_error_message code language message r = record r {
    error_messages = insert (message_key code language) message r.error_messages;
  }

  unfoldable pub get_error_message : ℤ → String → MethodRegistry H → String
  get_error_message code language r = elim (lookup (message_key code language) r.error_messages) [
    | some message ↦ message
    | none ↦ elim (lookup (message_key code r.default_language) r.error_messages) [
      | some message ↦ message
      | none ↦ "Unknown error"
    ]
  ]

  -- A run of calls of `SetErrorMessage`, the first one first.
  unfoldable pub set_error_messages :
      List (ℤ × String × String) → MethodRegistry H → MethodRegistry H
  set_error_messages [] r = r
  set_error_messages ((code, language, message) ∷ rest) r =
      set_error_messages rest (set_error_message code language message r)

-- The calls that the constructor makes.
abbrev pub standard_messages : List (ℤ × String × String)
standard_messages =
    (parse_error, "en-US", "Parse error")
    ∷ (invalid_request, "en-US", "Invalid Request")
    ∷ (method_not_found, "en-US", "Method not found")
    ∷ (invalid_params, "en-US", "Invalid params")
    ∷ (internal_error, "en-US", "Internal error")
    ∷ (parse_error, "ru-RU", "Ошибка разбора")
    ∷ (invalid_request, "ru-RU", "Неверный запрос")
    ∷ (method_not_found, "ru-RU", "Метод не найден")
    ∷ (invalid_params, "ru-RU", "Неверные параметры")
    ∷ (internal_error, "ru-RU", "Внутренняя ошибка")
    ∷ []

unfoldable pub new_registry {ℓ} : {H : Type ℓ} → MethodRegistry H
new_registry =
    set_error_messages standard_messages
      (record { methods = []; error_messages = []; default_language = "en-US" })
