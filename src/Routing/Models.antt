-- ===== src/Routing/Models.antt =====
-- internal/gateway/middleware/routing.go: the order in which the models of a route are tried.
use my_ai_router.Common.{
  ℕ, suc, ◌+◌, ◌%◌, ◌^◌, Bool, false, Option, none, some, List, [], ◌∷◌, ◌++◌, String, append, len,
  contains, contains_any, take, drop, length, ltb, ◌==◌, if◌then◌else◌, TextOps,
}
use my_ai_router.Json.{Json, Fields, Items, nil, cons, object, member, as_string, as_array}

-- `atomic.AddUint64(&loadBalanceCounter, 1)`
abbrev pub next_counter : ℕ → ℕ
next_counter counter = (counter + 1) % 2 ^ 64

unfoldable pub rotate : ℕ → List String → List String
rotate idx models = drop idx models ++ take idx models

unfoldable pub balance : ℕ → List String → List String
unfolding rotate
balance counter models = rotate (counter % length models) models

abbrev pub content_of : Json → String
content_of (object m) = elim (as_string (member "content" m)) [
  | none ↦ ""
  | some content ↦ append content " "
]
content_of _ = ""

unfoldable pub prompt_of : Items → String
prompt_of nil = ""
prompt_of (cons item rest) = append (content_of item) (prompt_of rest)

unfoldable pub prompt_text : Fields → String
prompt_text body = elim (as_array (member "messages" body)) [
  | none ↦ ""
  | some items ↦ prompt_of items
]

pub data Category : Type 0 where
  general long_context coding chat_translation math_reasoning : Category

abbrev pub coding_words : List String
coding_words =
    "code" ∷ "function" ∷ "def " ∷ "class " ∷ "import " ∷ "err !=" ∷ "html" ∷ "css" ∷ "script"
    ∷ "json" ∷ "sql" ∷ "bug" ∷ "fix" ∷ "refactor" ∷ "component" ∷ "struct" ∷ "interface" ∷ "panic"
    ∷ []

abbrev pub chat_words : List String
chat_words =
    "translate" ∷ "translation" ∷ "dịch" ∷ "idiom" ∷ "grammar" ∷ "summarize" ∷ "hello" ∷ "hi "
    ∷ "how are you" ∷ []

abbrev pub math_words : List String
math_words =
    "math" ∷ "integral" ∷ "proof" ∷ "solve" ∷ "equation" ∷ "logic" ∷ "calculate" ∷ "derivative"
    ∷ "theorem" ∷ "matrix" ∷ []

unfoldable pub classify_prompt : String → Category
classify_prompt prompt =
    if ltb 8000 (len prompt)
    then long_context
    else if contains_any prompt coding_words
    then coding
    else if contains_any prompt chat_words
    then chat_translation
    else if contains_any prompt math_words
    then math_reasoning
    else general

unfoldable pub suits : Category → String → Bool
suits general m = false
suits coding m = contains_any m ("claude" ∷ "glm" ∷ "deepseek" ∷ "gpt-4o" ∷ [])
suits long_context m = contains m "gemini"
suits math_reasoning m = contains_any m ("deepseek" ∷ "o1" ∷ "pro" ∷ [])
suits chat_translation m = contains_any m ("mini" ∷ "flash" ∷ "qwen" ∷ "haiku" ∷ [])

-- The index of the first model that suits, as the loop finds it.
unfoldable pub best_index : (String → Bool) → List String → Option ℕ
best_index good [] = none
best_index good (m ∷ rest) =
    let later = best_index good rest in
    if good m then some 0 else elim later [ none ↦ none | some i ↦ some (suc i) ]

-- The model at the index goes to the front; the others keep their order.
unfoldable pub promote : ℕ → List String → List String
promote i models = (take 1 (drop i models) ++ take i models) ++ drop (suc i) models

unfoldable pub rank_models : (String → Bool) → List String → List String
unfolding best_index promote
rank_models good models = elim (best_index good models) [
  | none ↦ models
  | some i ↦ if i == 0 then models else promote i models
]

-- `classifyAndRankModels`
unfoldable pub classify_and_rank : TextOps → Fields → List String → List String
unfolding rank_models
classify_and_rank ops body models =
    let category = classify_prompt (ops.to_lower (prompt_text body)) in
    rank_models (λ m. suits category (ops.to_lower m)) models
