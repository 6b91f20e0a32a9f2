-- ===== src/Rpc/Secrets.antt =====
-- `SecretDataManager`. A request's `params` are read through a parameter; a failure is the
-- `JsonRpcError` that the source throws, or the library's exception on a field that is no text. The
-- times of an entry, which nothing reads, are left out.
use Prim.Native.String.{◌++◌ as str_append}
use architecture_course.Prelude.{
  string_eq, ℕ, String, Option, none, some, List, [], ◌∷◌, Bool, true, false, not, ◌||◌, ◌==◌,
  if◌then◌else◌, leb, length, count_if,
}
use architecture_course.Prelude.Map.{Map, lookup, insert, erase, contains, values}

pub data AccessLevel : Type 0 where
  user admin super_admin : AccessLevel

pub record SecretData : Type 0 where
  pub id : String
  pub data_text : String
  pub min_access_level : AccessLevel
  pub owner : String

-- `data_store_`
abbrev pub DataStore : Type 0
DataStore = Map String SecretData

-- `AppErrorCodes`
abbrev pub access_denied : ℕ
access_denied = 100

abbrev pub invalid_access_level : ℕ
invalid_access_level = 101

abbrev pub data_not_found : ℕ
data_not_found = 102

abbrev pub invalid_action : ℕ
invalid_action = 103

abbrev pub data_already_exists : ℕ
data_already_exists = 104

abbrev pub missing_required_field : ℕ
missing_required_field = 105

pub record Stats : Type 0 where
  pub total_data : ℕ
  pub user_accessible : ℕ
  pub admin_accessible : ℕ
  pub super_admin_accessible : ℕ

-- A success with its `data`, its list or its `stats`; a `JsonRpcError`; or the exception of a
-- conversion to a text.
pub data RpcAnswer : Type 0 where
  success : String → Option String → RpcAnswer
  listed : List String → RpcAnswer
  counted : Stats → RpcAnswer
  rpc_error : ℕ → String → RpcAnswer
  type_error : RpcAnswer

-- `params.contains(key)` and the conversion of `params[key]` to a text, `none` where it throws.
pub record Params {ℓ} (J : Type ℓ) : Type ℓ where
  pub has_key : String → J → Bool
  pub text_of : String → J → Option String

unfoldable pub string_to_access_level : String → AccessLevel
string_to_access_level level =
    if level == "superAdmin" then super_admin else if level == "admin" then admin else user

unfoldable pub access_level_to_string : AccessLevel → String
access_level_to_string super_admin = "superAdmin"
access_level_to_string admin = "admin"
access_level_to_string user = "user"

-- `static_cast<int>` of a level
abbrev pub rank : AccessLevel → ℕ
rank user = 0
rank admin = 1
rank super_admin = 2

abbrev pub has_permission : AccessLevel → AccessLevel → Bool
has_permission user_level required_level = leb (rank required_level) (rank user_level)

abbrev pub is_super_admin : AccessLevel → Bool
is_super_admin super_admin = true
is_super_admin _ = false

abbrev pub is_user : AccessLevel → Bool
is_user user = true
is_user _ = false

unfoldable pub handle_add_data : DataStore → String → String → AccessLevel → RpcAnswer × DataStore
handle_add_data s data_id user_data level =
    if contains data_id s
    then (rpc_error data_already_exists "Data with ID already exists", s)
    else let new_data : SecretData = record {
      id = data_id;
      data_text = user_data;
      min_access_level = level;
      owner = "user";
    } in
      (success "Data added successfully" none, insert data_id new_data s)

unfoldable pub handle_get_data : DataStore → String → AccessLevel → RpcAnswer
handle_get_data s data_id level = elim (lookup data_id s) [
  | none ↦ rpc_error data_not_found "Data not found"
  | some entry ↦
      if not (has_permission level entry.min_access_level)
      then rpc_error access_denied "Access denied to this data"
      else success "Data retrieved successfully" (some entry.data_text)
]

unfoldable pub handle_delete_data : DataStore → String → AccessLevel → RpcAnswer × DataStore
handle_delete_data s data_id level =
    if not (is_super_admin level)
    then (rpc_error access_denied "Only superAdmin can delete data", s)
    else if contains data_id s
    then (success "Data deleted successfully" none, erase data_id s)
    else (rpc_error data_not_found "Data not found", s)

-- The ids that the loop of `handleListSecretData` collects.
unfoldable pub accessible : AccessLevel → DataStore → List String
accessible level [] = []
accessible level ((id, entry) ∷ rest) =
    let others = accessible level rest in
    if has_permission level entry.min_access_level then id ∷ others else others

-- The counts of the loop of `handleGetStats`.
abbrev pub accessible_count : AccessLevel → DataStore → ℕ
accessible_count level s =
    count_if (λ (entry : SecretData). has_permission level entry.min_access_level) (values s)

-- `handleManageSecretData` once the action, the id, the level and the data are read.
unfoldable pub manage : DataStore → String → String → AccessLevel → String → RpcAnswer × DataStore
manage s action data_id level user_data =
    if action == "add"
    then handle_add_data s data_id user_data level
    else if action == "get"
    then (handle_get_data s data_id level, s)
    else if action == "delete"
    then handle_delete_data s data_id level
    else (rpc_error invalid_action (str_append "Invalid action: " action), s)

module _ {ℓ} {J : Type ℓ} (params_of : Params J) (s : DataStore) (params : J) where
  open params_of use {has_key, text_of}

  -- `params.contains("userData") ? params["userData"] : ""`
  abbrev pub user_data_or_empty : Option String
  user_data_or_empty = if has_key "userData" params then text_of "userData" params else some ""

  unfoldable pub handle_manage_secret_data : RpcAnswer × DataStore
  handle_manage_secret_data =
      if not (has_key "action" params)
        || not (has_key "dataID" params)
        || not (has_key "accessLevel" params)
      then (
        rpc_error missing_required_field "Missing required field: action, dataID, or accessLevel",
        s,
      )
      else elim (text_of "action" params) [
        | none ↦ (type_error, s)
        | some action ↦ elim (text_of "dataID" params) [
          | none ↦ (type_error, s)
          | some data_id ↦ elim (text_of "accessLevel" params) [
            | none ↦ (type_error, s)
            | some level ↦ elim user_data_or_empty [
              | none ↦ (type_error, s)
              | some user_data ↦ manage s action data_id (string_to_access_level level) user_data
            ]
          ]
        ]
      ]

  unfoldable pub handle_list_secret_data : RpcAnswer
  handle_list_secret_data =
      if not (has_key "accessLevel" params)
      then rpc_error missing_required_field "accessLevel is required"
      else elim (text_of "accessLevel" params) [
        | none ↦ type_error
        | some level ↦ listed (accessible (string_to_access_level level) s)
      ]

  unfoldable pub handle_get_stats : RpcAnswer
  handle_get_stats =
      if not (has_key "accessLevel" params)
      then rpc_error missing_required_field "accessLevel is required"
      else elim (text_of "accessLevel" params) [
        | none ↦ type_error
        | some level ↦
            if is_user (string_to_access_level level)
            then rpc_error access_denied "Only admin or superAdmin can view stats"
            else counted (record {
              total_data = length s;
              user_accessible = accessible_count user s;
              admin_accessible = accessible_count admin s;
              super_admin_accessible = accessible_count super_admin s;
            })
      ]
