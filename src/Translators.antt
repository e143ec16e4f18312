-- ===== src/Translators.antt =====
-- internal/gateway/providers/translators.go: requests and stream chunks between the OpenAI shape and
-- those of Anthropic and Gemini. `json.Unmarshal` and `json.Marshal` enter as arguments.
pub mod Requests
pub mod Agreement
pub mod Conversation
use my_ai_router.Common.{
  Bool, true, false, ◌||◌, Option, none, some, String, append, str_eq, is_empty, List, [], ◌∷◌,
  has_prefix, trim_prefix, TextOps, if◌then◌else◌,
}
use my_ai_router.Json.{
  Json, Fields, end, field, string, array, object, number, null, cons, nil, member, as_string,
  as_object, as_array, first_item, string_at, items_list, list_items,
}

-- `decode` fails on what is no JSON object.
pub record Codec : Type 0 where
  pub decode : String → Option Fields
  pub encode : Fields → String

-- What a translator makes of a line: the bytes for the client, if any, and whether the stream ends.
pub record Translated : Type 0 where
  pub output : String
  pub done : Bool

abbrev pub dropped : Translated
dropped = record { output = ""; done = false }

abbrev pub done_event : Translated
done_event = record { output = "data: [DONE]\n\n"; done = true }

abbrev pub content_chunk : String → Fields
content_chunk text = field "object" (string "chat.completion.chunk") (
    field "choices"
      (array (cons (object (field "delta" (object (field "content" (string text) end)) end)) nil))
      end)

abbrev pub content_event : Codec → String → Translated
content_event codec text = record {
  output = append "data: " (append (codec.encode (content_chunk text)) "\n\n");
  done = false;
}

abbrev pub text_event : Codec → Option Fields → Translated
text_event codec none = dropped
text_event codec (some m) = elim (as_string (member "text" m)) [
  | none ↦ dropped
  | some text ↦ content_event codec text
]

unfoldable pub claude_event : Codec → Fields → Translated
claude_event codec payload =
    let kind = string_at "type" payload in
    if str_eq kind "content_block_delta"
    then text_event codec (as_object (member "delta" payload))
    else if str_eq kind "message_stop"
    then done_event
    else dropped

-- `TranslateClaudeChunkToOpenAI`
unfoldable pub translate_claude : TextOps → Codec → String → Translated
unfolding claude_event
translate_claude ops codec line =
    let payload = trim_prefix line "data: " in
    if has_prefix line "data: "
    then if str_eq (ops.trim_space payload) "[DONE]"
      then done_event
      else elim (codec.decode payload) [ none ↦ dropped | some m ↦ claude_event codec m ]
    else dropped

abbrev first_part : Option Fields → Option Fields
first_part none = none
first_part (some content) = as_object (first_item (as_array (member "parts" content)))

abbrev candidate_content : Option Fields → Option Fields
candidate_content none = none
candidate_content (some candidate) = as_object (member "content" candidate)

unfoldable pub gemini_event : Codec → Fields → Translated
gemini_event codec payload = text_event codec (
    first_part
      (candidate_content (as_object (first_item (as_array (member "candidates" payload))))))

-- `TranslateGeminiChunkToOpenAI`
unfoldable pub translate_gemini : Codec → String → Translated
unfolding gemini_event
translate_gemini codec line = elim (codec.decode line) [
  | none ↦ dropped
  | some m ↦ gemini_event codec m
]
