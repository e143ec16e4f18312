-- ===== src/Translators/Agreement.antt =====
-- The text of an upstream's chunk is the text that the gateway counts and keeps.
use text.Mathlib.TextLemmas.{
  nil-append, append-nil as text_append-nil, append_assoc as text_append_assoc,
}
use text.Mathlib.TextPositions.{len-append, slice-append_right, starts_with-append}
use my_ai_router.Common.{
  ◌≡◌, sym, ap, ◌∙◌, inl, inr, false, Bool-cases, some, String, append, is_empty, eq_iff, str_eq,
  len, slice, trim_prefix, TextOps, if◌then◌else◌,
}
use my_ai_router.Json.{Fields, member, string_at, as_string, as_object, as_array}
use my_ai_router.Translators.{Codec, content_chunk, text_event, claude_event}
use my_ai_router.Provider.Pieces.{
  no_delta, first_text, choice_delta, choices_delta, message_delta, event_delta, line_delta,
}

spoken_text : (text : String) → append "" (if is_empty text then "" else text) ≡ text
spoken_text text = elim (Bool-cases (is_empty text)) [
  | inl e ↦ rw e ((nil-append "") ∙ sym ((eq_iff text "").0 e))
  | inr e ↦ rw e (nil-append text)
]

chunk_delta :
    (text : String)
    → event_delta (content_chunk text) no_delta ≡ record { text = text; reason = "" }
unfolding event_delta choices_delta choice_delta message_delta first_text member as_object as_array
    as_string
chunk_delta text =
    ap (λ x. record { text = x; reason = "" })
      (text_append-nil _ ∙ text_append-nil _ ∙ spoken_text text)

trim_prefix-append : (t s : String) → trim_prefix (append t s) t ≡ s
trim_prefix-append t s =
    rw (trim_prefix, starts_with-append t s)
      (ap (slice (append t s) (len t)) (len-append t s) ∙ slice-append_right t s)

-- A text that Anthropic streams comes back, piece by piece, from the chunk that the client is sent:
-- where encoded JSON decodes to itself, is not the closing mark and is not trimmed, the gateway counts
-- just the text of the upstream's event, and takes no finish reason from it.
pub claude_text_counted :
    (ops : TextOps) (codec : Codec) (event delta : Fields) (text : String)
    → string_at "type" event ≡ "content_block_delta"
    → as_object (member "delta" event) ≡ some delta
    → as_string (member "text" delta) ≡ some text
    → codec.decode (codec.encode (content_chunk text)) ≡ some (content_chunk text)
    → str_eq (codec.encode (content_chunk text)) "[DONE]" ≡ false
    → let line = append "data: " (codec.encode (content_chunk text)) in
      ops.trim_space line ≡ line
      → ((claude_event codec event).output ≡ append line "\n\n")
        × (line_delta ops (codec.decode) line no_delta ≡ record { text = text; reason = "" })
unfolding claude_event line_delta
claude_text_counted ops codec event delta text kind has_delta has_text decodes unmarked trims = (
  rw (kind, has_delta, text_event, has_text)
      (sym (text_append_assoc "data: " (codec.encode (content_chunk text)) "\n\n")),
  rw
      (
        trims,
        starts_with-append "data: " (codec.encode (content_chunk text)),
        trim_prefix-append "data: " (codec.encode (content_chunk text)),
        unmarked,
        decodes,
      )
      (chunk_delta text),
)
