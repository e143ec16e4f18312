-- ===== src/Provider/Counts.antt =====
-- internal/gateway/middleware/provider.go: the token counts that upstreams report, in the shapes of
-- their APIs. A count is a whole number, so the truncation of a float is left out.
use my_ai_router.Common.{
  ℕ, ◌+◌, ◌-◌, ◌&&◌, Option, none, some, String, str_eq, List, [], ◌∷◌, ltb, ◌==◌, has_prefix,
  trim_prefix, if◌then◌else◌,
}
use my_ai_router.Json.{Fields, end, member, as_number, as_object}

pub record Tokens : Type 0 where
  pub prompt : ℕ
  pub completion : ℕ
  pub cached : ℕ

abbrev pub no_tokens : Tokens
no_tokens = record { prompt = 0; completion = 0; cached = 0 }

-- `if v, ok := m[key].(float64); ok`, with 0 where it is not.
abbrev pub count_at : String → Fields → ℕ
count_at key m = elim (as_number (member key m)) [ none ↦ 0 | some n ↦ n ]

-- The first of the keys with a count above 0.
unfoldable pub first_count : List String → Fields → ℕ
first_count [] m = 0
first_count (key ∷ rest) m =
    let later = first_count rest m in if ltb 0 (count_at key m) then count_at key m else later

abbrev pub cached_count : Fields → ℕ
cached_count m =
    count_at "cache_creation_input_tokens" m
    + count_at "cache_read_input_tokens" m
    + count_at "cached_tokens" m

abbrev fields_at : String → Fields → Fields
fields_at key m = elim (as_object (member key m)) [ none ↦ end | some fields ↦ fields ]

abbrev pub or_count : ℕ → ℕ → ℕ
or_count known other = if known == 0 then other else known

-- The counts of "usage", of the message of an Anthropic event, of Ollama's reply and of Gemini's
-- metadata, in this order: the first count found stays.
unfoldable pub reported : Fields → Tokens
unfolding first_count
reported m =
    let usage = fields_at "usage" m in
    let event = fields_at "usage" (fields_at "message" m) in
    let meta = fields_at "usageMetadata" m in
    record {
      prompt =
          or_count
            (or_count
              (or_count
                (first_count ("prompt_tokens" ∷ "input_tokens" ∷ "prompt_eval_count" ∷ []) usage)
                (count_at "input_tokens" event))
              (count_at "prompt_eval_count" m))
            (count_at "promptTokenCount" meta);
      completion =
          or_count
            (or_count
              (or_count
                (first_count ("completion_tokens" ∷ "output_tokens" ∷ "eval_count" ∷ []) usage)
                (count_at "output_tokens" event))
              (count_at "eval_count" m))
            (count_at "candidatesTokenCount" meta);
      cached = cached_count usage + cached_count (fields_at "prompt_tokens_details" usage);
    }

-- Where one of the two counts is missing, the total gives it.
unfoldable pub fill_total : ℕ → Tokens → Tokens
fill_total total t =
    if ltb 0 t.prompt && ((t.completion == 0) && ltb t.prompt total)
    then record t { completion = total - t.prompt }
    else if ltb 0 t.completion && ((t.prompt == 0) && ltb t.completion total)
    then record t { prompt = total - t.completion }
    else t

-- `extractTokensFromAnyResponse`
unfoldable pub extract_tokens : Fields → Tokens
unfolding reported fill_total
extract_tokens m = fill_total (count_at "total_tokens" (fields_at "usage" m)) (reported m)

-- `extractStreamUsage`. `decode` is `json.Unmarshal` into a map.
unfoldable pub stream_usage : (String → Option Fields) → String → Tokens
unfolding extract_tokens
stream_usage decode line =
    let payload = trim_prefix line "data: " in
    if has_prefix line "data: "
    then if str_eq payload "[DONE]"
      then no_tokens
      else elim (decode payload) [ none ↦ no_tokens | some chunk ↦ extract_tokens chunk ]
    else no_tokens

-- `if pt > 0 { promptTokens = pt }`, and so on for the other counts.
unfoldable pub take_counts : Tokens → Tokens → Tokens
take_counts new old = record {
  prompt = if ltb 0 new.prompt then new.prompt else old.prompt;
  completion = if ltb 0 new.completion then new.completion else old.completion;
  cached = if ltb 0 new.cached then new.cached else old.cached;
}
