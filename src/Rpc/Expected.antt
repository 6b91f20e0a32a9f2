-- ===== src/Rpc/Expected.antt =====
-- What the methods answer to parameters that conform to their schemas.
use architecture_course.Prelude.{
  string_eq, ℕ, String, Option, none, some, List, true, ◌==◌, ◌≡◌, refl, arith, Option-cases,
  Bool-cases, inl, inr, ◌⊎◌,
}
use architecture_course.Prelude.Int.{ℤ}
use architecture_course.Prelude.Map.{lookup, contains}
use architecture_course.Prelude.Json.{null, Json}
use architecture_course.Rpc.Secrets.{
  string_to_access_level, is_user, is_super_admin, has_permission, handle_get_stats, Stats,
  handle_delete_data, user_data_or_empty, handle_get_data, handle_list_secret_data, AccessLevel,
  handle_add_data, DataStore, RpcAnswer, success, listed, counted, rpc_error, type_error,
  access_denied, data_not_found, data_already_exists, handle_manage_secret_data, manage,
}
use architecture_course.Rpc.Session.{Json as Values}
use architecture_course.Rpc.Schemas.{
  actions, levels, high_levels, manage_required, manage_properties, list_properties, list_required,
  stats_properties, stats_required, list_params_schema, stats_params_schema, text_schema,
  manage_params_schema, manage_result_schema,
}
use architecture_course.Rpc.Methods.{params_of}
use architecture_course.Rpc.Results.{result_json}
use architecture_course.Rpc.Fitting.{Chooses, Fits, text_lem, choice_lem, object_lem}
use architecture_course.Rpc.Conforming.{conforms, read_shape, written_shape}

-- A result that conforms to the schema, or an error about the data and the rights.
abbrev pub IsExpected : Json ℤ → RpcAnswer → Type 0
IsExpected schema (rpc_error code message) =
    (code ≡ access_denied) ⊎ (code ≡ data_not_found) ⊎ (code ≡ data_already_exists)
IsExpected schema type_error = ⊥
IsExpected schema answer =
    (now : ℕ)
    → (result : Json ℤ) × (result_json now answer ≡ some result)
      × (conforms written_shape schema result ≡ true)

manage_result :
    (message : String) (data_text : Option String)
    → IsExpected manage_result_schema (success message data_text)
unfolding manage_result_schema
manage_result message none = λ now. (_, refl, refl)
manage_result message (some s) = λ now. (_, refl, refl)

add-IsExpected :
    (s : DataStore) (id user_data : String) (level : AccessLevel)
    → IsExpected manage_result_schema (handle_add_data s id user_data level).0
unfolding handle_add_data
add-IsExpected s id user_data level = elim (Bool-cases (contains id s)) [
  | inl e ↦ rw (e, handle_add_data) (inr (inr refl))
  | inr e ↦ rw (e, handle_add_data) (manage_result "Data added successfully" none)
]

get-IsExpected :
    (s : DataStore) (id : String) (level : AccessLevel)
    → IsExpected manage_result_schema (handle_get_data s id level)
unfolding handle_get_data
get-IsExpected s id level = elim (Option-cases (lookup id s)) [
  | inl e ↦ rw (e, handle_get_data) (inr (inl refl))
  | inr (entry, e) ↦ elim (Bool-cases (has_permission level entry.min_access_level)) [
    | inl p ↦
        rw (e, p, handle_get_data)
          (manage_result "Data retrieved successfully" (some entry.data_text))
    | inr p ↦ rw (e, p, handle_get_data) (inl refl)
  ]
]

delete-IsExpected :
    (s : DataStore) (id : String) (level : AccessLevel)
    → IsExpected manage_result_schema (handle_delete_data s id level).0
unfolding handle_delete_data
delete-IsExpected s id level = elim (Bool-cases (is_super_admin level)) [
  | inr p ↦ rw (p, handle_delete_data) (inl refl)
  | inl p ↦ elim (Bool-cases (contains id s)) [
    | inl e ↦ rw (p, e, handle_delete_data) (manage_result "Data deleted successfully" none)
    | inr e ↦ rw (p, e, handle_delete_data) (inr (inl refl))
  ]
]

manage-IsExpected :
    (s : DataStore) (action id user_data : String) (level : AccessLevel)
    → Chooses actions action
    → IsExpected manage_result_schema (manage s action id level user_data).0
unfolding manage
manage-IsExpected s action id user_data level c = elim (Bool-cases (action == "add")) [
  | inl e ↦ rw (e, manage) (add-IsExpected s id user_data level)
  | inr e ↦ elim (Bool-cases (action == "get")) [
    | inl f ↦ rw (e, f, manage) (get-IsExpected s id level)
    | inr f ↦ elim (Bool-cases (action == "delete")) [
      | inl g ↦ rw (e, f, g, manage) (delete-IsExpected s id level)
      | inr g ↦ absurd (ground (arith, c, e, f, g))
    ]
  ]
]

listed_result : (ids : List String) → IsExpected null (listed ids)
listed_result ids now = (_, refl, refl)

counted_result : (stats : Stats) → IsExpected null (counted stats)
counted_result stats now = (_, refl, refl)

module _ {ℓ} {J : Type ℓ} (json : Values J) (s : DataStore) (params : J) where
  open json use {has_key, field, text}

  user_data_lem :
      Fits json params ("userData", text_schema)
      → (user_data : String) × (user_data_or_empty (params_of json) s params ≡ some user_data)
  user_data_lem fits = elim (Bool-cases (has_key "userData" params)) [
    | inr e ↦ ("", rw e refl)
    | inl e ↦
        let (word, f) = text_lem json (field "userData" params) (fits e) in (word, rw (e, f) refl)
  ]

  pub manage_method-IsExpected :
      conforms (read_shape json) manage_params_schema params ≡ true
      → IsExpected manage_result_schema (handle_manage_secret_data (params_of json) s params).0
  unfolding manage_params_schema handle_manage_secret_data
  manage_method-IsExpected h =
      let (
        (fits_action, (fits_id, (fits_data, (fits_level, (fits_language, more))))),
        (k, (k', (k'', end))),
      ) =
        object_lem json params manage_properties manage_required h in
      let (action, a, c) = choice_lem json actions (field "action" params) (fits_action k) in
      let (id, i) = text_lem json (field "dataID" params) (fits_id k') in
      let (level, l, c') = choice_lem json levels (field "accessLevel" params) (fits_level k'') in
      let (user_data, u) = user_data_lem fits_data in
      rw (handle_manage_secret_data, k, k', k'', a, i, l, u)
        (manage-IsExpected s action id user_data (string_to_access_level level) c)

  pub list_method-IsExpected :
      conforms (read_shape json) list_params_schema params ≡ true
      → IsExpected null (handle_list_secret_data (params_of json) s params)
  unfolding list_params_schema handle_list_secret_data
  list_method-IsExpected h =
      let ((fits_level, (fits_language, more)), (k, end)) =
        object_lem json params list_properties list_required h in
      let (level, l, c) = choice_lem json levels (field "accessLevel" params) (fits_level k) in
      rw (handle_list_secret_data, k, l) (listed_result _)

  pub stats_method-IsExpected :
      conforms (read_shape json) stats_params_schema params ≡ true
      → IsExpected null (handle_get_stats (params_of json) s params)
  unfolding stats_params_schema handle_get_stats
  stats_method-IsExpected h =
      let ((fits_level, (fits_language, more)), (k, end)) =
        object_lem json params stats_properties stats_required h in
      let (level, l, c) = choice_lem json high_levels (field "accessLevel" params) (fits_level k) in
      elim (Bool-cases (is_user (string_to_access_level level))) [
        | inl e ↦ rw (handle_get_stats, k, l, e) (inl refl)
        | inr e ↦ rw (handle_get_stats, k, l, e) (counted_result _)
      ]
