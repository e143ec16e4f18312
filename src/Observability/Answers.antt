-- ===== src/Observability/Answers.antt =====
-- internal/gateway/middleware/observability.go: what the records keep of an upstream's answer.
use my_ai_router.Common.{
  ℕ, Option, none, some, String, append, is_empty, List, [], ◌∷◌, ◌++◌, TextOps, if◌then◌else◌,
}
use my_ai_router.Json.{
  Json, Fields, Items, end, nil, cons, string, object, array, member, as_number, as_object,
  as_array, first_item, string_at,
}
use my_ai_router.Observability.Content.{content_text, truncate_preview, first_of, join}

-- What the standard library does with text, JSON and numbers.
pub record Formats : Type 0 where
  pub ops : TextOps
  pub decode : String → Option Fields
  pub show : ℕ → String

abbrev pub fields_at : String → Fields → Fields
fields_at key m = elim (as_object (member key m)) [ none ↦ end | some fields ↦ fields ]

abbrev pub text_at : TextOps → String → Fields → String
text_at ops key m = content_text ops (member key m)

abbrev pub first_object : String → Fields → Fields
first_object key m = elim (as_object (first_item (as_array (member key m)))) [
  | none ↦ end
  | some fields ↦ fields
]

abbrev choice_texts : TextOps → Fields → List String
choice_texts ops choice =
    let message = fields_at "message" choice in
    let delta = fields_at "delta" choice in
    text_at ops "content" message
    ∷ text_at ops "reasoning_content" message
    ∷ text_at ops "reasoning" message
    ∷ string_at "text" choice
    ∷ text_at ops "content" delta
    ∷ text_at ops "reasoning_content" delta
    ∷ []

-- A list of parts, as Anthropic answers; a content of another kind is passed over.
abbrev parts_text : TextOps → Fields → String
parts_text ops m = elim (as_array (member "content" m)) [
  | none ↦ ""
  | some parts ↦ content_text ops (some (array parts))
]

-- Where an answer may hold its text, in the order of preference.
abbrev answer_texts : TextOps → Fields → List String
answer_texts ops m =
    choice_texts ops (first_object "choices" m)
    ++ (parts_text ops m
        ∷ text_at ops "content" (fields_at "message" m)
        ∷ string_at "response" m
        ∷ text_at ops "parts" (fields_at "content" (first_object "candidates" m))
        ∷ string_at "message" (fields_at "error" m)
        ∷ string_at "error" m
        ∷ [])

abbrev error_code_text : Formats → Fields → String
error_code_text f m = elim (as_number (member "code" (fields_at "error" m))) [
  | none ↦ ""
  | some code ↦ append "Error code: " (f.show code)
]

-- `extractResponsePreview`
unfoldable pub response_preview : Formats → ℕ → String → String
unfolding first_of truncate_preview content_text
response_preview f max_len body =
    let parsed : String = elim (f.decode body) [
      | none ↦ truncate_preview f.ops max_len body
      | some m ↦
          let text = first_of (answer_texts f.ops m) in
          if is_empty text then error_code_text f m else truncate_preview f.ops max_len text
    ] in
    if is_empty body then "" else parsed

-- `extractFinishReason`
unfoldable pub finish_reason : (String → Option Fields) → String → String
finish_reason decode body =
    let parsed : String = elim (decode body) [
      | none ↦ "unknown"
      | some m ↦
          let reason = string_at "finish_reason" (first_object "choices" m) in
          if is_empty reason
          then elim (as_object (member "error" m)) [ none ↦ "stop" | some e ↦ "error" ]
          else reason
    ] in
    if is_empty body then "unknown" else parsed

unfoldable pub detail_texts : Items → List String
detail_texts nil = []
detail_texts (cons (string s) rest) = s ∷ detail_texts rest
detail_texts (cons (object m) rest) =
    let later = detail_texts rest in
    if is_empty (string_at "msg" m) then later else string_at "msg" m ∷ later
detail_texts (cons x rest) = detail_texts rest

-- `extractFastAPIDetail`
unfoldable pub detail_text : Option Json → String
unfolding detail_texts join
detail_text (some (string s)) = s
detail_text (some (array items)) = join "; " (detail_texts items)
detail_text _ = ""

-- `extractErrorMessage`
unfoldable pub error_message : TextOps → (String → Option Fields) → String → String
unfolding first_of truncate_preview detail_text content_text
error_message ops decode body =
    let parsed : String = elim (decode body) [
      | none ↦ truncate_preview ops 512 body
      | some m ↦
          let text = first_of (
            string_at "message" (fields_at "error" m)
            ∷ text_at ops "detail" (fields_at "error" m)
            ∷ string_at "error" m
            ∷ detail_text (member "detail" m)
            ∷ string_at "message" m
            ∷ []) in
          if is_empty text then "" else truncate_preview ops 512 text
    ] in
    if is_empty body then "" else parsed
