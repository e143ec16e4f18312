-- ===== src/Prepare/Body.antt =====
-- internal/gateway/middleware/prepare.go: `RequestPreparer.Prepare`. The copy of the body is the body
-- itself, since values are immutable.
use my_ai_router.Common.{
  ℕ, ◌-◌, Bool, true, false, ◌&&◌, ◌||◌, not, Option, none, some, String, str_eq, is_empty, List,
  [], ◌∷◌, length, ltb, ◌==◌, if◌then◌else◌,
}
use my_ai_router.Json.{
  Json, Fields, array, member, set_member, as_string, as_array, items_list, list_items,
}
use my_ai_router.Config.{Settings, ModelConfig, CompressionConfig}
use my_ai_router.Context.{PrepareResult}
use my_ai_router.Optimizer.{OptimizationContext, Registry, estimate, estimate_tokens}
use my_ai_router.Optimizer.Planner.{plan}
use my_ai_router.Optimizer.Runner.{optimize}
use my_ai_router.Prepare.Inject.{Prompts, inject_system_prompts}
use my_ai_router.Prepare.Tools.{Detect, compress_messages, with_headroom}
use my_ai_router.Prepare.Split.{Parts, split_messages, joined}

-- What preparation calls: the registered analyzers and passes, the choice of a filter, the tables of
-- prompts at the level of the settings, and Headroom's reply for an address, a model and messages.
pub record Engine : Type 0 where
  pub registry : Registry
  pub analyzers : List (OptimizationContext → OptimizationContext)
  pub detect : Detect
  pub prompts : Prompts
  pub headroom : String → String → List Json → Option (List Json)

-- `EstimateRequestTokens`
unfoldable pub estimate_request : Fields → ℕ
estimate_request body = elim (as_array (member "messages" body)) [
  | some items ↦ estimate (items_list items)
  | none ↦ elim (as_string (member "prompt" body)) [
    | some prompt ↦ estimate_tokens prompt
    | none ↦ 0
  ]
]

abbrev pub context_limit : String → ℕ
context_limit name =
    if str_eq name "anthropic" then 200000 else if str_eq name "gemini" then 1000000 else 128000

-- Whether the request is long enough to be compressed.
unfoldable pub exceeds : CompressionConfig → String → ℕ → Bool
exceeds cfg name tokens =
    if str_eq cfg.trigger "context_limit"
    then ltb (context_limit name) tokens
    else ltb cfg.threshold_tokens tokens

unfoldable pub analyze :
    List (OptimizationContext → OptimizationContext) → OptimizationContext → OptimizationContext
analyze [] c = c
analyze (a ∷ rest) c = analyze rest (a c)

abbrev pub unanalyzed : Settings → List Json → OptimizationContext
unanalyzed s older = record {
  messages = older;
  content_type = "";
  has_json = false;
  has_code = false;
  has_logs = false;
  estimated_tokens = 0;
  goal = s.optimization_goal;
}

-- The optimizer on the older messages. Neither the planner nor the runner fails.
unfoldable pub optimized : Engine → Settings → List Json → List Json
unfolding analyze
optimized e s older =
    let c = analyze e.analyzers (unanalyzed s older) in
    let steps = plan e.registry c s.optimization_engine s.pipeline_steps in
    (optimize e.registry.validators c steps.active_passes).messages

-- The older messages by the optimizer, or by the tool filters and Headroom.
unfoldable pub compress_older : Engine → Settings → String → List Json → List Json
unfolding optimized
compress_older e s model older =
    let filtered = compress_messages s.rtk_enabled e.detect older in
    if s.optimizer_enabled
    then optimized e s older
    else if s.headroom_enabled && not (is_empty s.headroom_url)
    then with_headroom (e.headroom s.headroom_url model filtered) filtered
    else filtered

abbrev pub unprepared : String → PrepareResult
unprepared strategy = record {
  modified = false;
  compression_applied = false;
  original_tokens = 0;
  prepared_tokens = 0;
  compressed_tokens = 0;
  protected_prefix_tokens = 0;
  protected_suffix_tokens = 0;
  strategy = strategy;
}

abbrev pub preserve_count : CompressionConfig → ℕ
preserve_count cfg = if cfg.preserve_recent_messages == 0 then 20 else cfg.preserve_recent_messages

-- The protected parts stay, and the messages between them are compressed, where there are any.
unfoldable pub compress_between :
    Engine → Settings → ModelConfig → Fields → Parts → PrepareResult → Fields × PrepareResult
unfolding compress_older
compress_between e s cfg body p r =
    let prefixed = record r { protected_prefix_tokens = estimate p.leading } in
    if p.splits
    then (
      set_member "messages"
          (array (list_items (joined (record p { older = compress_older e s cfg.id p.older }))))
          body,
      record prefixed { protected_suffix_tokens = estimate p.recent; compression_applied = true },
    )
    else (body, prefixed)

unfoldable pub compress_body :
    Engine → Settings → ModelConfig → Fields → PrepareResult → Fields × PrepareResult
unfolding compress_between
compress_body e s cfg body r = elim (as_array (member "messages" body)) [
  | none ↦ (body, r)
  | some items ↦
      if length (items_list items) == 0
      then (body, r)
      else compress_between e s cfg body
          (split_messages (preserve_count cfg.compression) (items_list items)) r
]

-- The counts behind the changes.
unfoldable pub measured : Fields × PrepareResult → Fields × PrepareResult
unfolding estimate_request
measured (body, r) =
    let prepared = estimate_request body in
    (
      body,
      record r {
        prepared_tokens = prepared;
        compressed_tokens =
            if r.compression_applied then r.original_tokens - prepared else r.compressed_tokens;
      },
    )

abbrev pub injector_format : String → String
injector_format name =
    if not (str_eq name "anthropic") && not (str_eq name "gemini") then "openai" else name

unfoldable pub rewritten : Engine → Settings → String → Bool → Fields → Fields
rewritten e s name rewrite body =
    if rewrite then inject_system_prompts e.prompts (injector_format name) s body else body

-- `RequestPreparer.Prepare` where compression is on and the settings are there.
unfoldable pub prepare_enabled :
    Engine → Settings → ModelConfig → String → Fields → Fields × PrepareResult
unfolding measured compress_body rewritten exceeds
prepare_enabled e s cfg name body =
    let rewrite = s.caveman_enabled || s.ponytail_enabled in
    let tokens = estimate_request body in
    let compress = exceeds cfg.compression name tokens in
    let counted = record (unprepared cfg.compression.strategy) {
      original_tokens = tokens;
      prepared_tokens = tokens;
    } in
    let marked = record counted { modified = true } in
    let body' = rewritten e s name rewrite body in
    if not rewrite && not compress
    then (body, counted)
    else measured (if compress then compress_body e s cfg body' marked else (body', marked))

-- `RequestPreparer.Prepare`; `none` where the settings cannot be read.
unfoldable pub prepare_request :
    Engine → Option Settings → ModelConfig → String → Fields → Option (Fields × PrepareResult)
unfolding prepare_enabled
prepare_request e settings cfg name body =
    if cfg.compression.enabled
    then elim settings [ none ↦ none | some s ↦ some (prepare_enabled e s cfg name body) ]
    else some (body, unprepared cfg.compression.strategy)
