-- ===== src/Lib.antt =====
-- MyAiRouter: a gateway that routes chat requests to the accounts of several AI providers.
--
-- A request runs through a pipeline of middlewares: access, rate limit, model resolver, routing, and
-- retry, which calls the rest of the pipeline once for each upstream it tries. What requests share
-- (the clock, the health of connections, the records of running requests, the users' buckets, the
-- round-robin counter and the configuration) is a record World; a handler takes the request and the
-- World and returns both, with its error. Each middleware is a function of next, as in the source.
--
-- Files and the code they model:
--   Health     internal/gateway/health/tracker.go: streaks of failures, cooldowns, average latency
--   Policy     internal/gateway/middleware/errorclass.go and AttemptPolicy of pkg/db/combos.go
--   Live       pkg/gateway/live.go: the records of running requests (Live/Sessions: its callers)
--   Json       the decoded JSON values that handlers read
--   Context    internal/gateway/context/context.go and writeUpstreamError of middleware/retry.go
--   Pipeline   internal/gateway/middleware/pipeline.go: Pipeline.Run
--   Limiter    internal/gateway/middleware/limiter.go: RateLimit
--   Config     pkg/db/snapshot.go, models.go and ResolveCombo of combos.go, as requests read them;
--              Stored and Loaded, the settings row of settings.go
--   Database   pkg/db: the tables and the routing snapshot; the mutations of combos.go, models.go,
--              connections.go, disabled.go (ModelLists), custom_models.go (Customs), pricing.go,
--              nodes.go and proxy.go (Nodes), settings.go (SettingsRow) and upserts.go; Bundle,
--              pkg/gateway/config_api.go; Calls, histories of mutations;
--              Reading, the snapshot's build of snapshot.go; ApiKeys, apikeys.go
--   Usage      pkg/db/usage.go: SaveRequestUsage and the daily summaries
--   Access     internal/gateway/middleware/auth.go and pkg/db/apikeys.go
--   Guardrail  internal/gateway/middleware/guardrail.go
--   Resolver   internal/gateway/middleware/resolver.go: ModelResolver
--   Routing    internal/gateway/middleware/routing.go: Targets (resolveConnectionTargets), Order
--              (orderTargetsByHealth), Models (classifyAndRankModels), Route (Routing)
--   Retry      internal/gateway/middleware/retry.go: Attempt and Sequential (the loop), Single (one
--              target), Child (runChildWithRecorder, applyWinner, applyFailure, replayResponse),
--              Strategies (the race, parallel and ensemble strategies)
--   Prepare    internal/gateway/middleware/prepare.go: Prepare; Body
--              (RequestPreparer.Prepare), Split (the protected messages); Inject and Tools,
--              pkg/rtk/injectors.go
--   Provider   internal/gateway/middleware/provider.go: Provider, Events (handleSSEStream), Pieces
--              (extractDeltaFromChunk), Counts (extractTokensFromAnyResponse); Requests and
--              Upstreams, internal/gateway/providers/openai.go, anthropic.go, gemini.go, provider.go
--   Translators  internal/gateway/providers/translators.go: the chunks of streams; Requests (the
--              bodies)
--   Observability  internal/gateway/middleware/observability.go: the middleware; Content and Answers
--              (the previews)
--   Rtk        pkg/rtk/filters.go: the filters of tree, git diff (Diff), grep, logs, truncation
--   Gateway    internal/gateway/gateway.go: HandleChatCompletions, the whole pipeline
--   Passthrough  internal/gateway/passthrough.go, and authenticatePassthrough of gateway.go: embeddings
--              and audio (Relays, the handlers; Gate, Auth in front of them)
--   Optimizer  pkg/optimizer: Planner (Plan, sortPasses), Runner (Run), Validators, Dedup
--              (passes/dedup.go)
--   Common     shared names, lists, association lists, the functions of Go's package strings
--   Examples   small inputs on which the theorems are run
--
-- Numbers are natural numbers. Times are nanoseconds, 0 is Go's zero time, and only upstream calls
-- move the clock of World. Where the source uses a float64, the average latency is an exact decimal
-- and the bucket counts billionths of a token, so rounding is not modelled; neither is the overflow
-- of int, but the round-robin counter wraps at 2 ^ 64. A map is an association list, a JSON number
-- is a whole one. Three loops run on fuel: that over groups of targets in Routing/Order has the number
-- of targets, of which each group takes one at least; that over runs of lines in Optimizer/Dedup has
-- the number of lines; and that of Common/Lines has the length of the text, of which each line break
-- takes a byte. All other loops are structural.
--
-- Arguments stand for what the code only calls: the case folding and trimming of Unicode text, the
-- JSON codec, the adapters of the vendors, the passes, analyzers and validators of the optimizer,
-- which are interfaces in the source, the choice of a filter for a tool's output, and Headroom's
-- reply. Which child of a concurrent strategy comes back when is a Schedule: it lists the children in
-- the order in which they report, and a child runs as a whole when it reports. A child that reports
-- behind the first success runs under a cancelled context, which is a deadline at the zero time; one
-- that reports behind the answer changes only what requests share. Requests that run at the same time
-- are modelled only in Live, as a history of calls. A pass of the optimizer may write into message
-- maps that the states of its run share; `left` says what that leaves of the first and the last state.
-- Auth's three queries of the key table are answered or not, each by itself.
--
-- A table of the database is the list of its rows in the order of insertion, and a column of JSON
-- holds its decoded value. Each SQL statement has a flag that says whether the engine carries it out;
-- a statement that breaks a unique column is refused. How SQLite compares texts is an argument, the
-- collation. A provider node that is deleted is the one mutation that leaves a filled snapshot behind.
-- Handlers run one after the other on the database.
--
-- Not modelled: panics, but for those of the pass-through gate and of a write to a nil map, the passes
-- of tools, structure and Markdown, the filters of pkg/rtk for ls and git log, the HTTP exchanges of
-- the vendor adapters, their OAuth state and headers of disguise, the admin API but for its
-- configuration bundle, the schema's migrations, backups, chat sessions, costs and rates, the process
-- and the web interface.
pub mod Common
pub mod Health
pub mod Policy
pub mod Live
pub mod Json
pub mod Context
pub mod Pipeline
pub mod Limiter
pub mod Retry
pub mod Config
pub mod Database
pub mod Routing
pub mod Access
pub mod Optimizer
pub mod Guardrail
pub mod Resolver
pub mod Examples
pub mod Provider
pub mod Translators
pub mod Rtk
pub mod Gateway
pub mod Observability
pub mod Prepare
pub mod Passthrough
pub mod Usage
