-- ===== src/Rpc/Methods.antt =====
-- The methods and messages that `SecretDataManager` registers (secret_data_manager.cpp), and the session
-- of main.cpp that serves them.
use architecture_course.Prelude.{String, List, [], ◌∷◌}
use architecture_course.Prelude.Int.{ℤ, pos, negsuc}
use architecture_course.Rpc.Secrets.{
  access_denied, invalid_access_level, data_not_found, invalid_action, data_already_exists,
  missing_required_field, DataStore, Params, handle_manage_secret_data, handle_list_secret_data,
  handle_get_stats,
}
use architecture_course.Rpc.Registry.{
  MethodInfo, MethodRegistry, register_method, set_error_messages, new_registry,
}
use architecture_course.Prelude.Json.{null}
use architecture_course.Rpc.Schemas.{
  manage_params_schema, manage_result_schema, list_params_schema, stats_params_schema,
}
use architecture_course.Rpc.Session.{Json, Handler}

-- The calls of `registerErrorMessages`.
abbrev pub secret_messages : List (ℤ × String × String)
secret_messages =
    (pos access_denied, "en-US", "Access denied")
    ∷ (pos invalid_access_level, "en-US", "Invalid access level")
    ∷ (pos data_not_found, "en-US", "Data not found")
    ∷ (pos invalid_action, "en-US", "Invalid action")
    ∷ (pos data_already_exists, "en-US", "Data already exists")
    ∷ (pos missing_required_field, "en-US", "Missing required field")
    ∷ (pos access_denied, "ru-RU", "Доступ запрещен")
    ∷ (pos invalid_access_level, "ru-RU", "Неверный уровень доступа")
    ∷ (pos data_not_found, "ru-RU", "Данные не найдены")
    ∷ (pos invalid_action, "ru-RU", "Неверное действие")
    ∷ (pos data_already_exists, "ru-RU", "Данные уже существуют")
    ∷ (pos missing_required_field, "ru-RU", "Отсутствует обязательное поле")
    ∷ (pos access_denied, "fr-FR", "Accès refusé")
    ∷ (pos invalid_access_level, "fr-FR", "Niveau d'accès invalide")
    ∷ (pos data_not_found, "fr-FR", "Données non trouvées")
    ∷ (pos invalid_action, "fr-FR", "Action invalide")
    ∷ (pos data_already_exists, "fr-FR", "Données déjà existantes")
    ∷ (pos access_denied, "es-ES", "Acceso denegado")
    ∷ (pos invalid_access_level, "es-ES", "Nivel de acceso inválido")
    ∷ (pos data_not_found, "es-ES", "Datos no encontrados")
    ∷ (pos invalid_action, "es-ES", "Acción inválida")
    ∷ (pos data_already_exists, "es-ES", "Datos ya existen")
    ∷ []

abbrev allowed : List ℤ
allowed =
    negsuc 32599
    ∷ negsuc 32600
    ∷ negsuc 32601
    ∷ negsuc 32602
    ∷ pos 100
    ∷ pos 101
    ∷ pos 102
    ∷ pos 103
    ∷ pos 104
    ∷ pos 105
    ∷ []

module _ {ℓ} {J : Type ℓ} (json : Json J) where
  open json use {has_key, field, text}

  abbrev pub params_of : Params J
  params_of = record { has_key = has_key; text_of = λ key params. text (field key params) }

  abbrev pub manage_method : MethodInfo (Handler J DataStore)
  manage_method = record {
    name = "manageSecretData";
    description = "Manage secure data storage with add, get, and delete operations";
    params_schema = manage_params_schema;
    result_schema = manage_result_schema;
    handler = λ s params language. handle_manage_secret_data params_of s params;
    allowed_errors = allowed;
  }

  abbrev pub list_method : MethodInfo (Handler J DataStore)
  list_method = record {
    name = "listSecretData";
    description = "List all secret data IDs accessible by the user";
    params_schema = list_params_schema;
    result_schema = null;
    handler = λ s params language. (handle_list_secret_data params_of s params, s);
    allowed_errors = [];
  }

  abbrev pub stats_method : MethodInfo (Handler J DataStore)
  stats_method = record {
    name = "getSecretDataStats";
    description = "Get statistics about secret data";
    params_schema = stats_params_schema;
    result_schema = null;
    handler = λ s params language. (handle_get_stats params_of s params, s);
    allowed_errors = [];
  }

  unfoldable pub register_methods :
      MethodRegistry (Handler J DataStore) → MethodRegistry (Handler J DataStore)
  register_methods r =
      set_error_messages secret_messages (
        register_method stats_method
          (register_method list_method (register_method manage_method r)))

  -- The registry of the server.
  unfoldable pub server_registry : MethodRegistry (Handler J DataStore)
  unfolding new_registry register_methods
  server_registry = register_methods new_registry
