-- ===== src/Exchange/Json.antt =====
-- Values of encoding/json, and how it reads the fields of a struct.
use llm_inference_gateway.Base.{ℕ, Option, none, some, Text, text_eq, ◌==◌, if◌then◌else◌, []}

mutual
  pub data JsonValue : Type 0 where
    null : JsonValue
    number : ℕ → JsonValue
    text : Text → JsonValue
    array : Items → JsonValue
    object : Fields → JsonValue

  pub data Items : Type 0 where
    no_items : Items
    item : JsonValue → Items → Items

  pub data Fields : Type 0 where
    no_fields : Fields
    field : Text → JsonValue → Fields → Fields

-- The last field of this name; names are compared exactly.
abbrev pub field_of : Text → Fields → Option JsonValue
field_of name no_fields = none
field_of name (field key v fs) =
    let later = field_of name fs in
    elim later [ some w ↦ some w | none ↦ if key == name then some v else none ]

-- A string and a struct out of a field; one that is missing or null is the zero value, and `none` an
-- error.
abbrev pub text_in : Option JsonValue → Option Text
text_in none = some []
text_in (some null) = some []
text_in (some (text t)) = some t
text_in (some _) = none

abbrev pub fields_in : Option JsonValue → Option Fields
fields_in none = some no_fields
fields_in (some null) = some no_fields
fields_in (some (object fs)) = some fs
fields_in (some _) = none

abbrev pub items_in : Option JsonValue → Option Items
items_in none = some no_items
items_in (some null) = some no_items
items_in (some (array vs)) = some vs
items_in (some _) = none
