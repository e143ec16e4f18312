-- ===== src/Provider/Pieces.antt =====
-- internal/gateway/middleware/provider.go: the text and the finish reason of a chunk of a stream.
use my_ai_router.Common.{
  Option, none, some, String, append, str_eq, is_empty, List, [], ◌∷◌, has_prefix, trim_prefix,
  split_lines, TextOps, if◌then◌else◌,
}
use my_ai_router.Json.{Fields, member, as_array, as_object, first_item, string_at}

-- The text of a chunk so far, and the last finish reason.
pub record Delta : Type 0 where
  pub text : String
  pub reason : String

abbrev pub no_delta : Delta
no_delta = record { text = ""; reason = "" }

abbrev add_text : String → Delta → Delta
add_text text d = record d { text = append d.text text }

-- The first of the keys with a string that is not empty.
unfoldable pub first_text : List String → Fields → String
first_text [] m = ""
first_text (key ∷ rest) m =
    let later = first_text rest m in if is_empty (string_at key m) then later else string_at key m

unfoldable pub choice_delta : Fields → Delta → Delta
unfolding first_text
choice_delta choice d =
    let finish = string_at "finish_reason" choice in
    let reasoned = if is_empty finish then d else record d { reason = finish } in
    let spoken : Delta = elim (as_object (member "delta" choice)) [
      | none ↦ reasoned
      | some delta ↦
          add_text
            (first_text ("content" ∷ "reasoning" ∷ "reasoning_content" ∷ "thought" ∷ []) delta)
            reasoned
    ] in
    add_text (string_at "text" choice) spoken

unfoldable pub choices_delta : Fields → Delta → Delta
unfolding choice_delta
choices_delta m d = elim (as_array (member "choices" m)) [
  | none ↦ d
  | some choices ↦ elim (as_object (first_item (some choices))) [
    | none ↦ d
    | some choice ↦ choice_delta choice d
  ]
]

unfoldable pub message_delta : Fields → Delta → Delta
message_delta m d = elim (as_object (member "message" m)) [
  | none ↦ d
  | some message ↦ add_text (string_at "content" message) d
]

unfoldable pub event_delta : Fields → Delta → Delta
unfolding choices_delta message_delta
event_delta m d = add_text (string_at "response" m) (message_delta m (choices_delta m d))

unfoldable pub line_delta : TextOps → (String → Option Fields) → String → Delta → Delta
unfolding event_delta
line_delta ops decode line d =
    let trimmed = ops.trim_space line in
    let payload = trim_prefix trimmed "data: " in
    if has_prefix trimmed "data: "
    then if str_eq payload "[DONE]"
      then d
      else elim (decode payload) [ none ↦ d | some m ↦ event_delta m d ]
    else d

unfoldable pub lines_delta : TextOps → (String → Option Fields) → List String → Delta → Delta
unfolding line_delta
lines_delta ops decode [] d = d
lines_delta ops decode (line ∷ rest) d = lines_delta ops decode rest (line_delta ops decode line d)

-- `extractDeltaFromChunk`
unfoldable pub extract_delta : TextOps → (String → Option Fields) → String → Delta
unfolding lines_delta
extract_delta ops decode chunk = lines_delta ops decode (split_lines chunk) no_delta
