-- ===== src/Observability.antt =====
-- internal/gateway/middleware/observability.go: the records of a request that has run through the
-- pipeline. Costs and rates, which are floats, are left out, and so are errors of the database, which
-- the code ignores. Times are whole milliseconds, so one below a millisecond reads as none.
pub mod Content
pub mod Answers
pub mod Records
use my_ai_router.Common.{
  ℕ, ◌+◌, ◌-◌, ◌/◌, Bool, true, false, ◌&&◌, ◌||◌, not, Option, none, some, String, append, str_eq,
  len, slice, is_empty, List, [], ◌∷◌, ◌++◌, length, ltb, leb, ◌==◌, any, contains, note, lit, num,
  cut_slash, if◌then◌else◌, Message,
}
use my_ai_router.Json.{Fields, member, as_array, as_string, items_list, string_at}
use my_ai_router.Context.{
  Context, Connection, Percent, saved, added, PrepareResult, TraceStep, TargetAttempt,
}
use my_ai_router.Pipeline.{World, Outcome, Middleware, UsageEntry, FlatTrace}
use Content.{TracePreview, message_preview, prompt_chars, truncated_mark}
use Answers.{Formats, response_preview, finish_reason, error_message}

abbrev pub preview_limit : ℕ
preview_limit = 512

unfoldable pub latency_of : ℕ → ℕ → ℕ
latency_of started now = let ms = (now - started) / 1_000_000 in if ms == 0 then 1 else ms

-- `statusStr == "ok"`
unfoldable pub succeeded : Option String → ℕ → Bool
succeeded none code = ltb code 400
succeeded (some error) code = false

abbrev pub status_of : Bool → String
status_of ok = if ok then "ok" else "error"

-- `math.Max(1, math.Ceil(chars / 4))`, for a prompt that is not empty.
unfoldable pub prompt_estimate : ℕ → Bool → ℕ
prompt_estimate chars ok = if ltb 0 chars then (chars + 3) / 4 else if ok then 1 else 0

abbrev at_least_one : ℕ → ℕ
at_least_one n = if n == 0 then 1 else n

-- The lengths are divided as integers, before the code rounds up.
unfoldable pub completion_estimate : String → String → Bool → ℕ
completion_estimate preview body ok =
    if ltb 0 (len preview)
    then at_least_one (len preview / 4)
    else if ltb 0 (len body) && ok
    then at_least_one (len body / 10)
    else if ok
    then 1
    else 0

-- The counts of the request, estimated where no upstream has reported them.
unfoldable pub count_tokens : Formats → Bool → Context → Context
unfolding prompt_chars response_preview prompt_estimate completion_estimate
count_tokens f ok c =
    let preview = response_preview f preview_limit c.response_body in
    record c {
      prompt_tokens =
          if c.prompt_tokens == 0
          then prompt_estimate (prompt_chars f.ops c.request_body) ok
          else c.prompt_tokens;
      completion_tokens =
          if c.completion_tokens == 0
          then completion_estimate preview c.response_body ok
          else c.completion_tokens;
    }

abbrev pub connection_id : Context → String
connection_id c = elim c.connection [ none ↦ "" | some connection ↦ connection.id ]

abbrev ttfb_of : Context → ℕ → ℕ
ttfb_of c latency = if c.ttfb_ms == 0 then latency else c.ttfb_ms

abbrev pub usage_entry : Context → Bool → ℕ → UsageEntry
usage_entry c ok latency = record {
  provider = c.provider;
  model = c.model;
  connection_id = connection_id c;
  api_key = c.user_id;
  prompt_tokens = c.prompt_tokens;
  completion_tokens = c.completion_tokens;
  cached_tokens = c.cached_tokens;
  status = status_of ok;
  duration_ms = latency;
  ttfb_ms = ttfb_of c latency;
  retry_count = c.retry_count;
  fallback = c.fallback_count;
}

-- The names that stand in a trace where routing has set none.
unfoldable pub provider_name : Context → String
provider_name c =
    let prefix : String = elim (cut_slash c.original_model) [
      | none ↦ "unknown"
      | some (prefix, rest) ↦ prefix
    ] in
    if is_empty c.provider then prefix else c.provider

unfoldable pub model_name : Context → String
model_name c =
    let rest : String = elim (cut_slash c.original_model) [
      | none ↦ c.original_model
      | some (prefix, rest) ↦ rest
    ] in
    if is_empty c.model then rest else c.model

abbrev pub route_kind : Context → String
route_kind c = if is_empty c.metadata.combo_kind then "direct" else c.metadata.combo_kind

abbrev pub compression_of : Context → Percent
compression_of c = elim c.metadata.compression_pct [ none ↦ saved 0 | some p ↦ p ]

abbrev is_rewrite : TraceStep → Bool
is_rewrite s = contains s.name "Prompt Rewrite" && str_eq s.status "success"

abbrev step : String → String → Message → TraceStep
step name status details = record { name = name; status = status; details = details }

abbrev optimizer_step : Percent → TraceStep
optimizer_step (saved n) =
    if ltb 0 n
    then step "Optimizer" "success" (lit "saved " ∷ num n ∷ lit "%" ∷ [])
    else step "Optimizer" "skipped" (note "skipped")
optimizer_step (added n) = step "Optimizer" "skipped" (note "skipped")

abbrev provider_details : ℕ → Message
provider_details ms = num ms ∷ lit " ms" ∷ []

abbrev pub trace_steps : Context → Bool → ℕ → List TraceStep
trace_steps c ok latency =
    step "Resolve Model" "success" (note (model_name c))
    ∷ (if any is_rewrite c.steps
        then step "Prompt Rewrite" "success" (note "injected system prompt")
        else step "Prompt Rewrite" "skipped" (note "skipped"))
    ∷ optimizer_step (compression_of c)
    ∷ step "Route" "success" (lit (provider_name c) ∷ lit " (" ∷ lit (route_kind c) ∷ lit ")" ∷ [])
    ∷ step "Provider" (status_of ok) (provider_details latency)
    ∷ []

unfoldable pub request_text : TracePreview → String
request_text p =
    if is_empty p.system
    then p.user
    else if is_empty p.user
    then p.system
    else append "[system] " (append p.system (append "\n\n[user] " p.user))

unfoldable pub message_count : Fields → ℕ
message_count body = elim (as_array (member "messages" body)) [
  | some items ↦ length (items_list items)
  | none ↦ elim (as_string (member "prompt" body)) [ some prompt ↦ 1 | none ↦ 0 ]
]

abbrev cut_error : String → String
cut_error text = if ltb 1024 (len text) then append (slice text 0 1024) truncated_mark else text

unfoldable pub error_text : Formats → Option String → String → String
unfolding error_message
error_text f none body = cut_error (error_message f.ops (f.decode) body)
error_text f (some error) body =
    let found = error_message f.ops (f.decode) body in
    cut_error (if is_empty found then error else found)

abbrev error_code : Bool → ℕ → ℕ
error_code ok code = if ok then 0 else if code == 0 then 500 else code

unfoldable pub trace_of : Formats → Context → Option String → ℕ → FlatTrace
unfolding succeeded provider_name model_name request_text message_preview message_count
    response_preview finish_reason error_text prompt_chars
trace_of f c error latency =
    let ok = succeeded error c.response_code in
    record {
      id = c.request_id;
      status = status_of ok;
      provider = provider_name c;
      model = model_name c;
      route = route_kind c;
      node = if is_empty (connection_id c) then provider_name c else connection_id c;
      route_nodes = c.metadata.models_to_try;
      attempt = 1 + c.fallback_count;
      total_attempts = at_least_one (length c.metadata.models_to_try);
      latency_ms = latency;
      ttfb_ms = ttfb_of c latency;
      input_tokens = c.prompt_tokens;
      output_tokens = c.completion_tokens;
      cached_tokens = c.cached_tokens;
      compression = compression_of c;
      is_stream = c.is_stream;
      retry_count = c.retry_count;
      fallback_count = c.fallback_count;
      target_attempts = c.target_attempts;
      pipeline = trace_steps c ok latency;
      messages = message_count c.request_body;
      chars = prompt_chars f.ops c.request_body;
      prepared = c.metadata.prepare_result;
      finish_reason = finish_reason (f.decode) c.response_body;
      error_code = error_code ok c.response_code;
      error_message = if ok then "" else error_text f error c.response_body;
      request = request_text (message_preview f.ops preview_limit c.request_body);
      response = response_preview f preview_limit c.response_body;
    }

-- Whether the settings turn the storage of traces off.
unfoldable pub traces_off : World → Bool
traces_off w = elim w.config.settings [
  | none ↦ false
  | some s ↦ str_eq s.trace_storage_mode "disabled" || str_eq s.trace_storage_mode "off"
]

-- What follows the pipeline.
unfoldable pub record_outcome : Formats → Outcome → Outcome
unfolding count_tokens latency_of succeeded traces_off trace_of
record_outcome f o =
    let latency = latency_of o.ctx.started o.world.now in
    let ok = succeeded o.error o.ctx.response_code in
    let c = count_tokens f ok o.ctx in
    let used = record o.world { usage = o.world.usage ++ usage_entry c ok latency ∷ [] } in
    record {
      error = o.error;
      ctx = c;
      world =
          if traces_off o.world
          then used
          else record used { traces = used.traces ++ trace_of f c o.error latency ∷ [] };
    }

-- `Observability`
unfoldable pub observability : Formats → Middleware
unfolding record_outcome
observability f next c w = record_outcome f (next c w)
