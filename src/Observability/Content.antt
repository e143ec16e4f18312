-- ===== src/Observability/Content.antt =====
-- internal/gateway/middleware/observability.go: the text of a content, and previews of it. A text is
-- cut at a character, where the code cuts at a byte.
use my_ai_router.Common.{
  ℕ, ◌+◌, ◌||◌, ◌&&◌, Option, none, some, String, append, str_eq, len, slice, find?, is_empty, List,
  [], ◌∷◌, ◌++◌, ltb, TextOps, if◌then◌else◌,
}
use my_ai_router.Json.{
  Json, Fields, Items, nil, cons, string, object, array, member, as_array, string_at,
}

-- `strings.Join(parts, separator)`
unfoldable pub join : String → List String → String
join separator [] = ""
join separator (x ∷ []) = x
join separator (x ∷ y ∷ rest) = append x (append separator (join separator (y ∷ rest)))

abbrev opening : String
opening = "<environment_details>"

abbrev closing : String
closing = "</environment_details>"

-- The text in front of the details of the environment, or behind them where they stand first.
unfoldable pub strip_details : TextOps → String → String
strip_details ops text = elim (find? text opening) [
  | none ↦ text
  | some i ↦ if ltb 0 i then ops.trim_space (slice text 0 i) else elim (find? text closing) [
    | none ↦ text
    | some j ↦ ops.trim_space (slice text (j + len closing) (len text))
  ]
]

abbrev keep_text : String → List String
keep_text text = if is_empty text then [] else text ∷ []

unfoldable pub part_texts : TextOps → Items → List String
unfolding strip_details
part_texts ops nil = []
part_texts ops (cons (object m) rest) =
    let text = string_at "text" m in
    (if is_empty text then [] else keep_text (strip_details ops text)) ++ part_texts ops rest
part_texts ops (cons (string s) rest) = keep_text s ++ part_texts ops rest
part_texts ops (cons x rest) = part_texts ops rest

-- `extractTextFromContent`
unfoldable pub content_text : TextOps → Option Json → String
unfolding part_texts join
content_text ops (some (string s)) = s
content_text ops (some (array items)) = join "\n" (part_texts ops items)
content_text ops (some (object m)) = string_at "text" m
content_text ops _ = ""

abbrev pub truncated_mark : String
truncated_mark = "...[TRUNCATED]"

-- `truncatePreview`
unfoldable pub truncate_preview : TextOps → ℕ → String → String
truncate_preview ops max_len s =
    let trimmed = ops.trim_space s in
    if ltb max_len (len trimmed) then append (slice trimmed 0 max_len) truncated_mark else trimmed

-- The first text that is not empty.
unfoldable pub first_of : List String → String
first_of [] = ""
first_of (x ∷ rest) = let later = first_of rest in if is_empty x then later else x

-- `TracePreview`
pub record TracePreview : Type 0 where
  pub system : String
  pub user : String

abbrev pub no_preview : TracePreview
no_preview = record { system = ""; user = "" }

unfoldable pub preview_message : TextOps → ℕ → Fields → TracePreview → TracePreview
unfolding content_text truncate_preview
preview_message ops max_len m p =
    let role = string_at "role" m in
    let content = content_text ops (member "content" m) in
    if is_empty content
    then p
    else if (str_eq role "system" || str_eq role "developer") && is_empty p.system
    then record p { system = truncate_preview ops max_len content }
    else if str_eq role "user" && is_empty p.user
    then record p { user = truncate_preview ops max_len content }
    else p

-- The loop over the messages. Behind two previews it changes nothing more.
unfoldable pub preview_messages : TextOps → ℕ → Items → TracePreview → TracePreview
unfolding preview_message
preview_messages ops max_len nil p = p
preview_messages ops max_len (cons (object m) rest) p =
    preview_messages ops max_len rest (preview_message ops max_len m p)
preview_messages ops max_len (cons x rest) p = preview_messages ops max_len rest p

abbrev preview_text : TextOps → ℕ → Fields → TracePreview
preview_text ops max_len body = record no_preview {
  user =
      truncate_preview ops max_len
        (first_of (string_at "prompt" body ∷ string_at "input" body ∷ []));
}

-- `extractMessagePreview`
unfoldable pub message_preview : TextOps → ℕ → Fields → TracePreview
unfolding preview_messages truncate_preview first_of
message_preview ops max_len body = elim (as_array (member "messages" body)) [
  | some (cons x rest) ↦ preview_messages ops max_len (cons x rest) no_preview
  | _ ↦ preview_text ops max_len body
]

abbrev item_chars : TextOps → Json → ℕ
item_chars ops (object m) = len (content_text ops (member "content" m))
item_chars ops (string s) = len s
item_chars ops _ = 0

unfoldable pub items_chars : TextOps → Items → ℕ
unfolding content_text
items_chars ops nil = 0
items_chars ops (cons x rest) = item_chars ops x + items_chars ops rest

-- The bytes of the prompt.
unfoldable pub prompt_chars : TextOps → Fields → ℕ
unfolding items_chars
prompt_chars ops body = elim (as_array (member "messages" body)) [
  | some items ↦ items_chars ops items
  | none ↦ len (string_at "prompt" body)
]
