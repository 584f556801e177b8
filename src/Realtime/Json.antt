-- ===== src/Realtime/Json.antt =====
-- The values that JSON.parse returns, as far as the relay looks into them.
use playkaboom.Common.{
  ◌-◌, Bool, true, false, Option, none, some, List, [], ◌∷◌, if◌then◌else◌, length, drop,
}
use playkaboom.Sdk.Buffer.{Bytes, bytes_eq}

-- A text is the list of its code units. A number is the text that JSON.stringify prints of it.
mutual
  pub data Json : Type 0 where
    null : Json
    boolean : Bool → Json
    number : Bytes → Json
    text : Bytes → Json
    array : Items → Json
    object : Fields → Json

  pub data Items : Type 0 where
    nil : Items
    cons : Json → Items → Items

  pub data Fields : Type 0 where
    end : Fields
    field : Bytes → Json → Fields → Fields

-- The last field of a name is the one that JSON.parse keeps.
unfoldable pub field_of : Bytes → Fields → Option Json
field_of name end = none
field_of name (field key value rest) = elim (field_of name rest) [
  | some later ↦ some later
  | none ↦ if bytes_eq key name then some value else none
]

-- `value?.name`: nothing of a value that has no fields
unfoldable pub member : Bytes → Json → Option Json
member name (object fields) = field_of name fields
member name _ = none

unfoldable pub items : Items → List Json
items nil = []
items (cons value rest) = value ∷ items rest

-- `Array.isArray(parsed) ? parsed : [parsed]`
unfoldable pub calls_of : Json → List Json
calls_of (array values) = items values
calls_of value = value ∷ []

-- Equality of a Set's elements. Objects and arrays of two messages are never the same object.
unfoldable pub same_value : Json → Json → Bool
same_value null null = true
same_value (boolean true) (boolean true) = true
same_value (boolean false) (boolean false) = true
same_value (number a) (number b) = bytes_eq a b
same_value (text a) (text b) = bytes_eq a b
same_value _ _ = false

-- `text.endsWith(suffix)`; a shorter text is not equal to the suffix.
unfoldable pub ends_with : Bytes → Bytes → Bool
ends_with s suffix = bytes_eq (drop (length s - length suffix) s) suffix
