-- ===== src/Rpc/Values.antt =====
-- JSON values for the runs of sessions, with what a session reads of them.
use architecture_course.Prelude.{
  string_eq, String, Option, none, some, List, [], ◌∷◌, Bool, true, false, ◌==◌, ◌||◌,
  if◌then◌else◌,
}
use architecture_course.Rpc.Session.{Json}

mutual
  pub data Value : Type 0 where
    nothing : Value
    word : String → Value
    object : Fields → Value
    array : Values → Value

  pub data Fields : Type 0 where
    done : Fields
    member : String → Value → Fields → Fields

  pub data Values : Type 0 where
    nil : Values
    cons : Value → Values → Values

abbrev has_member : String → Fields → Bool
has_member key done = false
has_member key (member name value rest) = name == key || has_member key rest

abbrev member_of : String → Fields → Value
member_of key done = nothing
member_of key (member name value rest) = if name == key then value else member_of key rest

abbrev elements : Values → List Value
elements nil = []
elements (cons value rest) = value ∷ elements rest

abbrev is_object_value : Value → Bool
is_object_value (object fields) = true
is_object_value other = false

abbrev has_key_value : String → Value → Bool
has_key_value key (object fields) = has_member key fields
has_key_value key other = false

abbrev field_value : String → Value → Value
field_value key (object fields) = member_of key fields
field_value key other = nothing

abbrev text_value : Value → Option String
text_value (word s) = some s
text_value other = none

abbrev items_value : Value → Option (List Value)
items_value (array values) = some (elements values)
items_value other = none

abbrev pub values_json : Json Value
values_json = record {
  null = nothing;
  is_object = is_object_value;
  has_key = has_key_value;
  field = field_value;
  text = text_value;
  items = items_value;
}

-- A request for a method of the server with an id.
abbrev pub request : String → String → Fields → Value
request id method params = object (
    member "jsonrpc" (word "2.0") (
      member "method" (word method) (member "id" (word id) (member "params" (object params) done))))
