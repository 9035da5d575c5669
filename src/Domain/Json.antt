-- ===== src/Domain/Json.antt =====
-- The values that encoding/json decodes into `any`, and `map[string]any` as an association list.
-- A number is kept as its text: the program only copies or prints it.
use notify_hub.Prelude.{
  String, Bool, Option, none, some, List, [], ◌∷◌, ◌==◌, string_eq, if◌then◌else◌,
}

mutual
  pub data Value : Type 0 where
    null : Value
    bool : Bool → Value
    number : String → Value
    text : String → Value
    array : Items → Value
    object : Fields → Value

  pub data Items : Type 0 where
    nil : Items
    cons : Value → Items → Items

  pub data Fields : Type 0 where
    end : Fields
    field : String → Value → Fields → Fields

abbrev pub Payload : Type 0
Payload = List (String × Value)

-- v, ok := m[k]
unfoldable pub get : String → Payload → Option Value
get k [] = none
get k ((j, v) ∷ m) = if j == k then some v else get k m

-- m[k] = v
unfoldable pub put : String → Value → Payload → Payload
put k v [] = (k, v) ∷ []
put k v ((j, w) ∷ m) = if j == k then (k, v) ∷ m else (j, w) ∷ put k v m
