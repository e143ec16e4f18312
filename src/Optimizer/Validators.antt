-- ===== src/Optimizer/Validators.antt =====
-- pkg/optimizer/validators: the validators of JSON, UTF-8 and Markdown. `json.Valid` and
-- `utf8.ValidString` enter as arguments.
use my_ai_router.Common.{
  ℕ, suc, Bool, ◌&&◌, ◌||◌, not, Option, none, some, String, List, [], ◌∷◌, has_prefix, has_suffix,
  Message, lit, num, TextOps, if◌then◌else◌,
}
use my_ai_router.Json.{Json, object, member, as_string}
use my_ai_router.Optimizer.{Validator}

-- The content of a message that has a text for one.
abbrev pub content_of : Json → Option String
content_of (object m) = as_string (member "content" m)
content_of _ = none

-- The loop over the messages behind a pass: the first content that is refused gives the error.
unfoldable pub first_refused : (String → Bool) → String → ℕ → List Json → Option Message
first_refused refuses text i [] = none
first_refused refuses text i (x ∷ rest) =
    let later = first_refused refuses text (suc i) rest in
    elim (content_of x) [
      | none ↦ later
      | some content ↦
          if refuses content then some (lit "message " ∷ num i ∷ lit text ∷ []) else later
    ]

abbrev pub looks_like_json : String → Bool
looks_like_json s = (has_prefix s "{" && has_suffix s "}") || (has_prefix s "[" && has_suffix s "]")

-- `JsonValidator`
abbrev pub json_validator : TextOps → (String → Bool) → Validator
json_validator ops valid = record {
  name = "json";
  verify = λ c before after.
      first_refused (λ s. looks_like_json (ops.trim_space s) && not (valid (ops.trim_space s)))
        " contains corrupted/invalid JSON syntax" 0 after;
}

-- `Utf8Validator`
abbrev pub utf8_validator : (String → Bool) → Validator
utf8_validator valid = record {
  name = "utf8";
  verify = λ c before after.
      first_refused (λ s. not (valid s)) " contains invalid UTF-8 string coding" 0 after;
}

-- `MarkdownValidator`
abbrev pub markdown_validator : Validator
markdown_validator = record { name = "markdown"; verify = λ c before after. none }
