-- ===== src/Rpc/Access.antt =====
-- Who can read, change and count the secrets.
use architecture_course.Prelude.{
  string_eq, ◌≤◌, String, some, [], ◌∷◌, true, false, ◌≡◌, ◌≢◌, refl, arith, Bool-cases,
  Option-cases, inl, inr, ◌⊎◌, ◌==◌, length, eq_iff,
}
use architecture_course.Prelude.Map.{lookup, values}
use architecture_course.Prelude.Map.Laws.{lookup-insert}
use architecture_course.Rpc.Secrets.{
  is_user, counted, handle_get_stats, AccessLevel, user, admin, super_admin, SecretData, DataStore,
  Stats, has_permission, is_super_admin, handle_add_data, handle_get_data, handle_delete_data,
  accessible, accessible_count, manage, Params, string_to_access_level,
}

-- Two stores with the same ids and levels in the same order, and the same data wherever `level` may
-- read it. The ids have to agree: the code of the error tells an entry above the level from one that is
-- not there.
abbrev pub AgreeFor : AccessLevel → DataStore → DataStore → Type 0
AgreeFor level [] [] = Unit
AgreeFor level [] ((k, y) ∷ t) = ⊥
AgreeFor level ((j, x) ∷ s) [] = ⊥
AgreeFor level ((j, x) ∷ s) ((k, y) ∷ t) =
    (j ≡ k)
    × (x.min_access_level ≡ y.min_access_level)
    × ((has_permission level x.min_access_level ≡ false) ⊎ (x.data_text ≡ y.data_text))
    × AgreeFor level s t

get_agrees :
    (level : AccessLevel) (s t : DataStore) (id : String)
    → AgreeFor level s t
    → handle_get_data s id level ≡ handle_get_data t id level
unfolding handle_get_data lookup
get_agrees level [] [] id a = refl
get_agrees level [] ((k, y) ∷ t) id a = absurd a
get_agrees level ((j, x) ∷ s) [] id a = absurd a
get_agrees level ((j, x) ∷ s) ((k, y) ∷ t) id (e, l, d, a) =
    let rest = get_agrees level s t id a in
    elim (Bool-cases (j == id)) [
      | inl hit ↦ ground (arith, e, l, d)
      | inr miss ↦ ground (arith, e, rest)
    ]

list_agrees :
    (level : AccessLevel) (s t : DataStore)
    → AgreeFor level s t
    → accessible level s ≡ accessible level t
unfolding accessible
list_agrees level [] [] a = refl
list_agrees level [] ((k, y) ∷ t) a = absurd a
list_agrees level ((j, x) ∷ s) [] a = absurd a
list_agrees level ((j, x) ∷ s) ((k, y) ∷ t) (e, l, d, a) =
    let rest = list_agrees level s t a in ground arith

add_keeps :
    (s : DataStore) (id user_data : String) (level : AccessLevel) (k : String) (x : SecretData)
    → lookup k s ≡ some x
    → lookup k (handle_add_data s id user_data level).1 ≡ some x
unfolding handle_add_data
add_keeps s id user_data level k x e = elim (Option-cases (lookup id s)) [
  | inr (y, f) ↦ rw (f, handle_add_data) e
  | inl f ↦
      let new : SecretData = record {
        id = id;
        data_text = user_data;
        min_access_level = level;
        owner = "user";
      } in
      rw (f, handle_add_data) (ground (arith, lookup-insert id k new s, eq_iff id k))
]

delete_keeps :
    (s : DataStore) (id : String) (level : AccessLevel)
    → is_super_admin level ≡ false
    → (handle_delete_data s id level).1 ≡ s
unfolding handle_delete_data
delete_keeps s id level l = rw (l, handle_delete_data) refl

-- A caller below `superAdmin` removes and changes nothing: every stored entry stays as it is.
pub manage_keeps :
    (s : DataStore) (action id user_data : String) (level : AccessLevel) (k : String)
    (x : SecretData)
    → is_super_admin level ≡ false
    → lookup k s ≡ some x
    → lookup k (manage s action id level user_data).1 ≡ some x
unfolding manage
manage_keeps s action id user_data level k x l e =
    let added = add_keeps s id user_data level k x e in
    let deleted : lookup k (handle_delete_data s id level).1 ≡ some x =
      rw (delete_keeps s id level l) e in
    elim (Bool-cases (action == "add")) [
      | inl a ↦ rw (a, manage) added
      | inr a ↦ elim (Bool-cases (action == "get")) [
        | inl b ↦ rw (a, b, manage) e
        | inr b ↦ elim (Bool-cases (action == "delete")) [
          | inl c ↦ rw (a, b, c, manage) deleted
          | inr c ↦ rw (a, b, c, manage) e
        ]
      ]
    ]

-- A caller learns nothing of the contents of the entries above its level: two stores with the same ids
-- and levels in the same order, and with the same contents wherever the caller may read, give the same
-- answer to a request for an entry and to a request for the list.
pub reads_agree :
    (level : AccessLevel) (s t : DataStore)
    → AgreeFor level s t
    → (id : String)
    → (handle_get_data s id level ≡ handle_get_data t id level)
      × (accessible level s ≡ accessible level t)
reads_agree level s t a id = (get_agrees level s t id a, list_agrees level s t a)

counts_ordered :
    (s : DataStore)
    → (accessible_count user s ≤ accessible_count admin s)
      × (accessible_count admin s ≤ accessible_count super_admin s)
      × (accessible_count super_admin s ≡ length s)
unfolding values
counts_ordered [] = (omega arith, omega arith, refl)
counts_ordered ((k, x) ∷ s) =
    let (p, q, r) = counts_ordered s in (ground arith, ground arith, ground arith)

-- Statistics of a store that a caller may see.
pub record IsOrdered (s : DataStore) (stats : Stats) : Type 0 where
  pub total : stats.total_data ≡ length s
  pub user_admin : stats.user_accessible ≤ stats.admin_accessible
  pub admin_super : stats.admin_accessible ≤ stats.super_admin_accessible
  pub all : stats.super_admin_accessible ≡ stats.total_data

counted_answer :
    (s : DataStore) (stats : Stats)
    → counted (record {
      total_data = length s;
      user_accessible = accessible_count user s;
      admin_accessible = accessible_count admin s;
      super_admin_accessible = accessible_count super_admin s;
    })
      ≡ counted stats
    → IsOrdered s stats
counted_answer s stats e =
    let (p, q, r) = counts_ordered s in
    record {
      total = ground arith;
      user_admin = ground arith;
      admin_super = ground arith;
      all = ground arith;
    }

user_refused : is_user (string_to_access_level "user") ≡ true
unfolding string_to_access_level
user_refused = refl

module _ {ℓ} {J : Type ℓ} (params_of : Params J) where
  -- Statistics are not given to a caller with the level "user". In those that are given a higher level
  -- has at least as many entries as a lower one, and the highest has all.
  pub handle_get_stats_lem :
      (s : DataStore) (params : J) (stats : Stats)
      → handle_get_stats params_of s params ≡ counted stats
      → IsOrdered s stats × (params_of.text_of "accessLevel" params ≢ some "user")
  unfolding handle_get_stats
  handle_get_stats_lem s params stats e =
      elim (Option-cases (params_of.text_of "accessLevel" params)) [
        | inl n ↦ absurd (ground arith)
        | inr (level, n) ↦ elim (Bool-cases (is_user (string_to_access_level level))) [
          | inl low ↦ absurd (ground arith)
          | inr high ↦ elim (Bool-cases (params_of.has_key "accessLevel" params)) [
            | inr missing ↦ absurd (ground arith)
            | inl there ↦ (
              counted_answer s stats (rw (there, handle_get_stats, n, high) at e),
              λ same. cc (user_refused, high, n, same),
            )
          ]
        ]
      ]
