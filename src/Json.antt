-- ===== src/Json.antt =====
-- Decoded JSON, as the gateway reads request and response bodies: `map[string]interface{}` is
-- `Fields` and `[]interface{}` is `Items`. A number is a whole one and not negative.
use my_ai_router.Common.{ℕ, Bool, Option, none, some, List, [], ◌∷◌, String, str_eq, if◌then◌else◌}

mutual
  pub data Json : Type 0 where
    null : Json
    bool : Bool → Json
    number : ℕ → Json
    string : String → Json
    array : Items → Json
    object : Fields → Json

  pub data Items : Type 0 where
    nil : Items
    cons : Json → Items → Items

  pub data Fields : Type 0 where
    end : Fields
    field : String → Json → Fields → Fields

-- `m[key]`, with `none` where the key is absent.
unfoldable pub member : String → Fields → Option Json
member key end = none
member key (field k v rest) = let later = member key rest in if str_eq k key then some v else later

-- `m[key] = value`
unfoldable pub set_member : String → Json → Fields → Fields
set_member key new end = field key new end
set_member key new (field k v rest) =
    let later = set_member key new rest in
    if str_eq k key then field k new rest else field k v later

-- The type assertions `v.(string)`, `v.(map[string]interface{})` and `v.([]interface{})`.
unfoldable pub as_string : Option Json → Option String
as_string (some (string s)) = some s
as_string _ = none

unfoldable pub as_object : Option Json → Option Fields
as_object (some (object m)) = some m
as_object _ = none

unfoldable pub as_array : Option Json → Option Items
as_array (some (array xs)) = some xs
as_array _ = none

unfoldable pub as_number : Option Json → Option ℕ
as_number (some (number n)) = some n
as_number _ = none

unfoldable pub as_bool : Option Json → Option Bool
as_bool (some (bool b)) = some b
as_bool _ = none

-- `xs[0]`, guarded by `len(xs) > 0`
abbrev pub first_item : Option Items → Option Json
first_item (some (cons x rest)) = some x
first_item _ = none

abbrev pub items_list : Items → List Json
items_list nil = []
items_list (cons x rest) = x ∷ items_list rest

abbrev pub list_items : List Json → Items
list_items [] = nil
list_items (x ∷ rest) = cons x (list_items rest)

-- `s, _ := m[key].(string)`
abbrev pub string_at : String → Fields → String
string_at key m = elim (as_string (member key m)) [ none ↦ "" | some s ↦ s ]
