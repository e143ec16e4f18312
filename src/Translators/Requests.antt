-- ===== src/Translators/Requests.antt =====
-- internal/gateway/providers/translators.go: the request bodies. A missing member reads as JSON null.
use my_ai_router.Common.{
  ℕ, Bool, ◌||◌, Option, none, some, String, append, str_eq, is_empty, List, [], ◌∷◌, ◌++◌,
  if◌then◌else◌,
}
use my_ai_router.Json.{
  Json, Fields, end, field, string, array, object, number, null, cons, nil, member, set_member,
  as_string, as_number, as_array, string_at, items_list, list_items,
}

-- `m[key]` on its way into another map.
abbrev pub value_at : String → Fields → Json
value_at key m = elim (member key m) [ none ↦ null | some v ↦ v ]

-- `role == "system" || role == "developer"`
abbrev pub is_system : Fields → Bool
is_system m = str_eq (string_at "role" m) "system" || str_eq (string_at "role" m) "developer"

-- The system texts are joined, with an empty line in front of each but the first. A content that is
-- no string leaves the empty line.
abbrev pub join_system : Fields → String → String
join_system m system =
    append (if is_empty system then "" else append system "\n\n") (string_at "content" m)

-- The system text and the other messages.
pub record Parted : Type 0 where
  pub system : String
  pub messages : List Json

abbrev pub nothing_parted : Parted
nothing_parted = record { system = ""; messages = [] }

abbrev claude_message : Fields → Json
claude_message m =
    object (field "role" (value_at "role" m) (field "content" (value_at "content" m) end))

abbrev pub text_parts : Option String → Json
text_parts none = null
text_parts (some text) = array (cons (object (field "text" (string text) end)) nil)

abbrev gemini_message : Fields → Json
gemini_message m = object (
    field "role" (string (if str_eq (string_at "role" m) "assistant" then "model" else "user"))
      (field "parts" (text_parts (as_string (member "content" m))) end))

unfoldable pub part_message : (Fields → Json) → Json → Parted → Parted
part_message shape (object m) p =
    if is_system m
    then record p { system = join_system m p.system }
    else record p { messages = p.messages ++ shape m ∷ [] }
part_message shape _ p = p

unfoldable pub part_messages : (Fields → Json) → List Json → Parted → Parted
unfolding part_message
part_messages shape [] p = p
part_messages shape (x ∷ rest) p = part_messages shape rest (part_message shape x p)

unfoldable pub parted : (Fields → Json) → Fields → Parted
unfolding part_messages
parted shape body = elim (as_array (member "messages" body)) [
  | none ↦ nothing_parted
  | some items ↦ part_messages shape (items_list items) nothing_parted
]

-- A nil slice becomes JSON null.
abbrev pub json_list : List Json → Json
json_list [] = null
json_list (x ∷ rest) = array (list_items (x ∷ rest))

unfoldable pub max_tokens : Fields → ℕ
max_tokens body = elim (as_number (member "max_tokens" body)) [
  | some n ↦ n
  | none ↦ elim (as_number (member "max_completion_tokens" body)) [ some n ↦ n | none ↦ 4096 ]
]

abbrev with_temperature : Fields → Fields → Fields
with_temperature body out = elim (as_number (member "temperature" body)) [
  | none ↦ out
  | some t ↦ set_member "temperature" (number t) out
]

abbrev with_system : String → Fields → Fields
with_system system out = if is_empty system then out else set_member "system" (string system) out

-- `OpenAIToClaude`
unfoldable pub openai_to_claude : Fields → Fields
unfolding max_tokens parted
openai_to_claude body =
    let p = parted claude_message body in
    set_member "messages" (json_list p.messages) (
      with_system p.system (
        with_temperature body (
          field "model" (value_at "model" body) (
            field "stream" (value_at "stream" body)
              (field "max_tokens" (number (max_tokens body)) end)))))

-- `OpenAIToGemini`
unfoldable pub openai_to_gemini : Fields → Fields
unfolding parted
openai_to_gemini body =
    let p = parted gemini_message body in
    let out = field "contents" (json_list p.messages) end in
    if is_empty p.system
    then out
    else set_member "systemInstruction" (object (field "parts" (text_parts (some p.system)) end))
        out
