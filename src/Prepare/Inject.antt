-- ===== src/Prepare/Inject.antt =====
-- pkg/rtk/injectors.go: the instructions that preparation adds to a request. The two tables of texts
-- are arguments, and a request is a value: the copy that preparation works on shares nothing.
use my_ai_router.Common.{
  Bool, ◌||◌, Option, none, some, String, append, str_eq, is_empty, if◌then◌else◌,
}
use my_ai_router.Json.{
  Json, Fields, Items, end, field, null, string, array, object, cons, nil, member, set_member,
  as_array, string_at,
}
use my_ai_router.Config.{Settings}

-- `CavemanPrompts` and `PonytailPrompts`, at the level that the settings name. An unknown level has
-- the empty text.
pub record Prompts : Type 0 where
  pub caveman : String
  pub ponytail : String

unfoldable pub injected_prompt : Prompts → Settings → String
injected_prompt prompts s =
    let first = if s.caveman_enabled then prompts.caveman else "" in
    if s.ponytail_enabled
    then append (if is_empty first then first else append first "\n\n") prompts.ponytail
    else first

-- `append` on a slice of decoded JSON.
unfoldable pub append_item : Items → Json → Items
append_item nil x = cons x nil
append_item (cons y rest) x = cons y (append_item rest x)

abbrev pub text_part : String → Json
text_part prompt = object (field "type" (string "text") (field "text" (string prompt) end))

abbrev pub system_message : String → Json
system_message prompt =
    object (field "role" (string "system") (field "content" (string prompt) end))

-- The content with the prompt behind it: only a string and a list of parts take it.
unfoldable pub extended : String → Option Json → Option Json
unfolding append_item
extended prompt (some (string text)) =
    some (string (if is_empty text then prompt else append text (append "\n\n" prompt)))
extended prompt (some (array parts)) = some (array (append_item parts (text_part prompt)))
extended prompt _ = none

abbrev pub is_system_role : String → Bool
is_system_role role = str_eq role "system" || str_eq role "developer"

unfoldable pub extend_message : String → Fields → Fields
unfolding extended
extend_message prompt m = elim (extended prompt (member "content" m)) [
  | none ↦ m
  | some content ↦ set_member "content" content m
]

-- The messages with the prompt in the first system message, and `none` where there is none.
unfoldable pub extend_system : String → Items → Option Items
unfolding extend_message
extend_system prompt nil = none
extend_system prompt (cons (object m) rest) =
    let later : Option Items = elim (extend_system prompt rest) [
      | none ↦ none
      | some items ↦ some (cons (object m) items)
    ] in
    if is_system_role (string_at "role" m)
    then some (cons (object (extend_message prompt m)) rest)
    else later
extend_system prompt (cons x rest) = elim (extend_system prompt rest) [
  | none ↦ none
  | some items ↦ some (cons x items)
]

-- The member that the messages are read from: "input" where there are no "messages".
abbrev pub source_key : Fields → String
source_key body = elim (member "messages" body) [ none ↦ "input" | some v ↦ "messages" ]

unfoldable pub inject_messages : String → Fields → Option Items → Fields
unfolding extend_system
inject_messages prompt body none =
    set_member "messages" (array (cons (system_message prompt) nil)) body
inject_messages prompt body (some nil) =
    set_member "messages" (array (cons (system_message prompt) nil)) body
inject_messages prompt body (some (cons x rest)) = elim (extend_system prompt (cons x rest)) [
  | some items ↦ set_member (source_key body) (array items) body
  | none ↦ set_member "messages" (array (cons (system_message prompt) (cons x rest))) body
]

-- `injectOpenAISystem`
unfoldable pub inject_openai : String → Fields → Fields
unfolding inject_messages
inject_openai prompt body = inject_messages prompt body (as_array (member (source_key body) body))

-- `injectClaudeSystem`
unfoldable pub inject_claude : String → Fields → Fields
unfolding append_item
inject_claude prompt body = elim (member "system" body) [
  | none ↦ set_member "system" (string prompt) body
  | some null ↦ set_member "system" (string prompt) body
  | some (string text) ↦
      set_member "system"
        (string (if is_empty text then prompt else append text (append "\n\n" prompt))) body
  | some (array parts) ↦ set_member "system" (array (append_item parts (text_part prompt))) body
  | some _ ↦ body
]

abbrev gemini_part : String → Json
gemini_part prompt = object (field "text" (string prompt) end)

unfoldable pub gemini_parts : String → Option Items → Json
unfolding append_item
gemini_parts prompt none = array (cons (gemini_part prompt) nil)
gemini_parts prompt (some parts) = array (append_item parts (gemini_part prompt))

abbrev pub gemini_key : Fields → String
gemini_key body = elim (member "system_instruction" body) [
  | none ↦ "systemInstruction"
  | some v ↦ "system_instruction"
]

-- `injectGeminiSystem`
unfoldable pub inject_gemini : String → Fields → Fields
unfolding gemini_parts
inject_gemini prompt body =
    let key = gemini_key body in
    elim (member key body) [
      | none ↦ set_member key (object (field "parts" (gemini_parts prompt none) end)) body
      | some null ↦ set_member key (object (field "parts" (gemini_parts prompt none) end)) body
      | some (object m) ↦
          set_member key
            (object (set_member "parts" (gemini_parts prompt (as_array (member "parts" m))) m)) body
      | some _ ↦ body
    ]

-- `InjectSystemPrompts`. The format of Anthropic has the name "claude" here.
unfoldable pub inject_system_prompts : Prompts → String → Settings → Fields → Fields
unfolding injected_prompt inject_claude inject_gemini inject_openai
inject_system_prompts prompts format s body =
    let prompt = injected_prompt prompts s in
    if is_empty prompt
    then body
    else if str_eq format "claude"
    then inject_claude prompt body
    else if str_eq format "gemini"
    then inject_gemini prompt body
    else inject_openai prompt body
