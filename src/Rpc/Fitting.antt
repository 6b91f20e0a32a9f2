-- ===== src/Rpc/Fitting.antt =====
-- What a value that conforms to a schema of the methods has.
use architecture_course.Prelude.{
  string_eq, String, some, List, [], ◌∷◌, Bool, true, false, not, is_some, ◌||◌, ◌&&◌, subst, ◌≡◌,
  refl, arith, Option-cases, Bool-cases, inl, inr, All,
}
use architecture_course.Prelude.Int.{ℤ}
use architecture_course.Prelude.Json.{Elements, Json, braced, text, pushed}
use architecture_course.Rpc.Session.{Json as Values, Handler, language_of}
use architecture_course.Rpc.Registry.{MethodRegistry}
use architecture_course.Rpc.Schemas.{language_schema, text_schema, object_schema, choice_schema}
use architecture_course.Rpc.Conforming.{
  has_required, members_conform, member_conforms, is_one, conforms, read_shape,
}

and_true : (a b : Bool) → a && b ≡ true → (a ≡ true) × (b ≡ true)
and_true true b h = (refl, h)
and_true false b h = absurd (ground arith)

both_true : (a b : Bool) → a && (b && true) ≡ true → (a ≡ true) × (b ≡ true)
both_true true true h = (refl, refl)
both_true true false h = absurd (ground arith)
both_true false b h = absurd (ground arith)

all_true : (a b c : Bool) → a && (b && (c && true)) ≡ true → (b ≡ true) × (c ≡ true)
all_true true b c h = both_true b c h
all_true false b c h = absurd (ground arith)

implied : (a b : Bool) → a ≡ true → not a || b ≡ true → b ≡ true
implied true b e h = h
implied false b e h = absurd (ground arith)

-- A word of the choices
abbrev pub Chooses : List String → String → Type 0
Chooses words word = is_one (some word) (pushed (λ w. text w) words) ≡ true

module _ {ℓ} {J : Type ℓ} (json : Values J) where
  pub text_lem :
      (v : J)
      → member_conforms (read_shape json) text_schema v ≡ true
      → (word : String) × (json.text v ≡ some word)
  text_lem v h = elim (Option-cases (json.text v)) [
    | inl e ↦ absurd (ground (arith, h, e))
    | inr found ↦ found
  ]

  pub choice_lem :
      (words : List String) (v : J)
      → member_conforms (read_shape json) (choice_schema words) v ≡ true
      → (word : String) × (json.text v ≡ some word) × Chooses words word
  choice_lem words v h =
      let choices : Elements ℤ = pushed (λ w. text w) words in
      let (t, o) = both_true (is_some (json.text v)) (is_one (json.text v) choices) h in
      elim (Option-cases (json.text v)) [
        | inl e ↦ absurd (ground (arith, t, e))
        | inr (word, e) ↦ (word, e, subst (λ x. is_one x choices ≡ true) e o)
      ]

  module _ (params : J) where
    -- A member that is there has a value as its schema asks.
    abbrev pub Fits : String × Json ℤ → Type 0
    Fits (key, schema) =
        json.has_key key params ≡ true
        → member_conforms (read_shape json) schema (json.field key params) ≡ true

    members_lem :
        (properties : List (String × Json ℤ))
        → members_conform (read_shape json) (braced properties) params ≡ true
        → All Fits properties
    members_lem [] h = tt
    members_lem ((key, schema) ∷ rest) h =
        let (here, others) = and_true _ _ h in (λ k. implied _ _ k here, members_lem rest others)

    required_lem :
        (keys : List String)
        → has_required (read_shape json) (pushed (λ w. text w) keys) params ≡ true
        → All (λ key. json.has_key key params ≡ true) keys
    required_lem [] h = tt
    required_lem (key ∷ keys) h =
        let (here, others) = and_true _ _ h in (here, required_lem keys others)

    pub object_lem :
        (properties : List (String × Json ℤ)) (required : List String)
        → conforms (read_shape json) (object_schema properties required) params ≡ true
        → All Fits properties × All (λ key. json.has_key key params ≡ true) required
    object_lem properties required h =
        let (fit, there) =
          all_true (json.is_object params)
            (members_conform (read_shape json) (braced properties) params)
            (has_required (read_shape json) (pushed (λ w. text w) required) params) h in
        (members_lem properties fit, required_lem required there)

  language_fits :
      (v : J)
      → member_conforms (read_shape json) language_schema v ≡ true
      → (word : String) × (json.text v ≡ some word)
  language_fits v h = elim (Option-cases (json.text v)) [
    | inl e ↦ absurd (ground (arith, h, e))
    | inr found ↦ found
  ]

  -- The language of a request whose parameters conform is read.
  pub language_lem {κ} :
      {S : Type κ} (r : MethodRegistry (Handler J S)) (params : J)
      → Fits params ("language", language_schema)
      → (language : String) × (language_of json r params ≡ some language)
  unfolding language_of
  language_lem r params fits = elim (Bool-cases (json.is_object params)) [
    | inr o ↦ ("en-US", rw o refl)
    | inl o ↦ elim (Bool-cases (json.has_key "language" params)) [
      | inr e ↦ ("en-US", rw (o, e) refl)
      | inl e ↦
          let (word, f) = language_fits (json.field "language" params) (fits e) in
          (word, rw (o, e, f) refl)
    ]
  ]
