-- ===== src/Prepare.antt =====
-- internal/gateway/middleware/prepare.go: the request is shortened and extended before it goes to an
-- upstream. The percentage that is reported is exact, without the rounding of floats.
pub mod Inject
pub mod Tools
pub mod Split
pub mod Body
pub mod Ends
pub mod OptOut
use my_ai_router.Common.{
  ℕ, ◌+◌, ◌-◌, ◌*◌, ◌/◌, Bool, true, false, ◌&&◌, ◌||◌, not, Option, none, some, String, str_eq,
  len, is_empty, List, [], ◌∷◌, ◌++◌, length, put, get, ltb, ◌==◌, note, lit, num, if◌then◌else◌,
}
use my_ai_router.Json.{
  Json, Fields, end, field, bool, array, object, member, set_member, as_string, as_array, as_bool,
  string_at, items_list, list_items,
}
use my_ai_router.Config.{Snapshot, Settings, ModelConfig, CompressionConfig, model_config}
use my_ai_router.Context.{Context, PrepareResult, Percent, saved, added, add_step}
use my_ai_router.Pipeline.{World, Handler, Middleware}
use my_ai_router.Optimizer.{OptimizationContext, Registry, estimate, estimate_tokens}
use my_ai_router.Optimizer.Planner.{plan}
use my_ai_router.Optimizer.Runner.{optimize}
use Body.{Engine, prepare_request, unprepared}

-- `modelCfg.Compression.Enabled = false`. A policy of the snapshot is shared by all requests, so it
-- is the snapshot that changes; the defaults of a model without a policy are made for each request.
unfoldable pub opt_out : String → Snapshot → Snapshot
opt_out model s = elim (get model s.model_configs) [
  | none ↦ s
  | some cfg ↦ record s {
    model_configs =
        put model (record cfg { compression = record (cfg.compression) { enabled = false } })
          s.model_configs;
  }
]

abbrev pub stage : String
stage = "Request Preparation"

-- A stream that does not say so is asked for its usage.
unfoldable pub with_usage : Bool → Fields → Fields
with_usage is_stream body = elim (as_bool (member "stream" body)) [
  | none ↦ body
  | some asked ↦ elim (member "stream_options" body) [
    | some options ↦ body
    | none ↦
        if is_stream && asked
        then set_member "stream_options" (object (field "include_usage" (bool true) end)) body
        else body
  ]
]

abbrev pub reduction : ℕ → ℕ → Percent
reduction original prepared =
    if ltb original prepared
    then added ((prepared - original) * 100 / original)
    else saved ((original - prepared) * 100 / original)

unfoldable pub note_prepared : Fields × PrepareResult → Context → Context
note_prepared (body, r) c =
    let told = record c {
      request_body = body;
      prompt_tokens = if ltb 0 r.prepared_tokens then r.prepared_tokens else c.prompt_tokens;
      metadata = record (c.metadata) { prepare_result = some r };
    } in
    let percent =
      if ltb 0 r.original_tokens then reduction r.original_tokens r.prepared_tokens else saved 0 in
    if r.compression_applied
    then add_step
        (record told { metadata = record (told.metadata) { compression_pct = some percent } }) stage
        "success"
        (lit "Dynamic compression applied ("
          ∷ num r.original_tokens
          ∷ lit " -> "
          ∷ num r.prepared_tokens
          ∷ lit ")"
          ∷ [])
    else add_step told stage "success" (note "No transformation required")

unfoldable pub hand_over : Option (Fields × PrepareResult) → Middleware
unfolding note_prepared with_usage
hand_over none next c w = next (add_step c stage "failed" (note "Preparation failed")) w
hand_over (some (body, r)) next c w = next (note_prepared (with_usage c.is_stream body, r) c) w

-- `Prepare`. `name` gives the adapter's name for a provider's.
unfoldable pub prepare : Engine → (String → String) → Middleware
unfolding prepare_request hand_over opt_out
prepare e name next c w =
    let started =
      add_step c stage "started" (note "Executing request preparation & dynamic compression") in
    let config = if c.no_compress then opt_out c.model w.config else w.config in
    let found = model_config config c.model in
    let cfg : ModelConfig =
      if c.no_compress
      then record found { compression = record (found.compression) { enabled = false } }
      else found in
    hand_over (prepare_request e config.settings cfg (name c.provider) c.request_body) next started
      (record w { config = config })
