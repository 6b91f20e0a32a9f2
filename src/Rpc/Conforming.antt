-- ===== src/Rpc/Conforming.antt =====
-- What it means for a value to conform to a schema, for the keywords that the schemas use: `type`,
-- `enum`, `required` and, for the schemas of the members, `properties`.
use architecture_course.Prelude.{
  string_eq, String, Option, none, some, Bool, true, false, not, ◌||◌, ◌&&◌, ◌==◌, if◌then◌else◌,
  is_some,
}
use architecture_course.Prelude.Int.{ℤ}
use architecture_course.Prelude.Json.{
  Json, null, text, object, array, Members, no_members, member, Elements, no_elements, element,
}
use architecture_course.Rpc.Session.{Json as Values}

-- What a schema asks of a value. A value that is no text has no words.
pub record Shape {ℓ} (J : Type ℓ) : Type ℓ where
  pub is_of : String → J → Bool
  pub word : J → Option String
  pub has_key : String → J → Bool
  pub field : String → J → J

abbrev pub is_word : Option String → Json ℤ → Bool
is_word (some word) (text s) = word == s
is_word _ _ = false

abbrev pub is_one : Option String → Elements ℤ → Bool
is_one word no_elements = false
is_one word (element choice rest) = is_word word choice || is_one word rest

module _ {ℓ} {J : Type ℓ} (shape : Shape J) where
  open shape use {is_of, word, has_key, field}

  abbrev pub is_kind : Json ℤ → J → Bool
  is_kind (text kind) v = is_of kind v
  is_kind _ v = false

  abbrev pub is_a_kind : Elements ℤ → J → Bool
  is_a_kind no_elements v = false
  is_a_kind (element kind rest) v = is_kind kind v || is_a_kind rest v

  abbrev pub has_type : Json ℤ → J → Bool
  has_type (array kinds) v = is_a_kind kinds v
  has_type kind v = is_kind kind v

  abbrev pub is_choice : Json ℤ → J → Bool
  is_choice (array choices) v = is_one (word v) choices
  is_choice _ v = false

  abbrev pub has_required : Elements ℤ → J → Bool
  has_required no_elements v = true
  has_required (element (text key) rest) v = has_key key v && has_required rest v
  has_required (element _ rest) v = false

  abbrev pub meets_required : Json ℤ → J → Bool
  meets_required (array keys) v = has_required keys v
  meets_required _ v = false

  abbrev pub keywords_hold : (String → Json ℤ → Bool) → Members ℤ → Bool
  keywords_hold holds no_members = true
  keywords_hold holds (member keyword value rest) = holds keyword value && keywords_hold holds rest

  -- A member's value
  abbrev pub member_conforms : Json ℤ → J → Bool
  member_conforms (object keywords) v =
      keywords_hold
        (λ keyword value.
          if keyword == "type"
          then has_type value v
          else if keyword == "enum"
          then is_choice value v
          else true)
        keywords
  member_conforms _ v = true

  abbrev pub members_conform : Members ℤ → J → Bool
  members_conform no_members v = true
  members_conform (member key schema rest) v =
      (not (has_key key v) || member_conforms schema (field key v)) && members_conform rest v

  abbrev pub properties_conform : Json ℤ → J → Bool
  properties_conform (object schemas) v = members_conform schemas v
  properties_conform _ v = true

  -- A schema that is no object asks nothing.
  abbrev pub conforms : Json ℤ → J → Bool
  conforms (object keywords) v =
      keywords_hold
        (λ keyword value.
          if keyword == "type"
          then has_type value v
          else if keyword == "required"
          then meets_required value v
          else if keyword == "properties"
          then properties_conform value v
          else true)
        keywords
  conforms _ v = true

-- The shape of what a session reads.
abbrev pub read_shape {ℓ} : {J : Type ℓ} → Values J → Shape J
read_shape json = record {
  is_of = λ kind v.
      if kind == "object"
      then json.is_object v
      else if kind == "string"
      then is_some (json.text v)
      else false;
  word = json.text;
  has_key = json.has_key;
  field = json.field;
}

-- And of what it writes.
abbrev kind_is : String → Json ℤ → Bool
kind_is kind (object _) = kind == "object"
kind_is kind (text s) = kind == "string"
kind_is kind null = kind == "null"
kind_is kind _ = false

abbrev word_of : Json ℤ → Option String
word_of (text s) = some s
word_of _ = none

abbrev has_member : String → Members ℤ → Bool
has_member key no_members = false
has_member key (member name value rest) = name == key || has_member key rest

abbrev member_of : String → Members ℤ → Json ℤ
member_of key no_members = null
member_of key (member name value rest) = if name == key then value else member_of key rest

abbrev has_key_in : String → Json ℤ → Bool
has_key_in key (object members) = has_member key members
has_key_in key _ = false

abbrev field_in : String → Json ℤ → Json ℤ
field_in key (object members) = member_of key members
field_in key _ = null

abbrev pub written_shape : Shape (Json ℤ)
written_shape = record { is_of = kind_is; word = word_of; has_key = has_key_in; field = field_in }
