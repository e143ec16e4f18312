-- ===== src/Provider.antt =====
-- internal/gateway/middleware/provider.go: the middleware that calls the upstream. The adapters'
-- HTTP calls are outside: an adapter answers with an `Execution`. Times to the first byte are whole
-- milliseconds, so one below a millisecond reads as none.
pub mod Counts
pub mod Pieces
pub mod Events
pub mod Writes
pub mod Passing
pub mod Requests
pub mod Upstreams
use my_ai_router.Common.{
  ℕ, ◌-◌, ◌/◌, Bool, true, false, ◌&&◌, not, ◌==◌, Option, none, some, String, str_eq, List, [],
  ◌∷◌, ltb, Dict, get, lit, num, note, quoted, if◌then◌else◌,
}
use my_ai_router.Json.{Fields, end, field, string, number, array, object, cons, nil}
use my_ai_router.Live.Sessions.{mark_stream}
use my_ai_router.Context.{Context, Connection, add_step, raw, send}
use my_ai_router.Pipeline.{World, Outcome, Middleware, Handler, return}
use Counts.{Tokens, extract_tokens}
use Events.{Tools, Relay, Stream, handle_stream}

-- `providers.ExecutionResult`, with the time at which it is there.
pub record Execution : Type 0 where
  pub error : Option String
  pub response_code : ℕ
  pub body : String
  pub is_stream : Bool
  pub stream : Stream
  pub finished : ℕ

-- The interface `providers.Provider`: the adapter of an upstream, which is given the deadlines, the
-- account, the request and the time.
pub record Adapter : Type 0 where
  pub name : String
  pub execute : List ℕ → Connection → Fields → ℕ → Execution

-- The registry of adapters. That of OpenAI, the fallback, is always registered.
pub record Adapters : Type 0 where
  pub named : Dict Adapter
  pub openai : Adapter

unfoldable pub adapter_for : Adapters → String → Adapter
adapter_for adapters name = elim (get name adapters.named) [
  | none ↦ adapters.openai
  | some adapter ↦ adapter
]

-- The shapes of event streams.
abbrev pub stream_format : String → String
stream_format provider =
    if not (str_eq provider "anthropic") && not (str_eq provider "gemini")
    then "openai"
    else provider

abbrev pub no_connection_body : String
no_connection_body =
    "{\"error\":{\"message\":\"No upstream connection resolved for this target\",\"type\":\"api_error\"}}"

-- The counts of an answer, where they are above 0.
unfoldable pub take_tokens : Tokens → Context → Context
take_tokens t c = record c {
  prompt_tokens = if ltb 0 t.prompt then t.prompt else c.prompt_tokens;
  completion_tokens = if ltb 0 t.completion then t.completion else c.completion_tokens;
  cached_tokens = if ltb 0 t.cached then t.cached else c.cached_tokens;
}

-- The answer that stands for a stream in the records.
abbrev stream_summary : Context → Relay → Fields
stream_summary c r =
    field "choices"
      (array (
        cons
          (object (
            field "message" (object (field "content" (string r.text) end))
              (field "finish_reason" (string r.reason) end)))
          nil))
      (field "usage"
        (object (
          field "prompt_tokens" (number c.prompt_tokens) (
            field "completion_tokens" (number c.completion_tokens)
              (field "cached_tokens" (number c.cached_tokens) end))))
        end)

-- Behind a stream: a stream that fails leaves counts, times and body as they were.
unfoldable pub close_stream : Tools → Relay → Option String → Context → Context
unfolding take_tokens
close_stream tools r (some error) c = c
close_stream tools r none c =
    let counted = record (take_tokens r.tokens c) { ttfb_ms = r.ttfb_ms } in
    record counted { response_body = tools.codec.encode (stream_summary counted r) }

unfoldable pub relay_stream : Tools → Execution → Context → World → Context × World
unfolding close_stream
relay_stream tools res c w =
    let (r, error) =
      handle_stream tools (stream_format c.provider) c.live_id c.started res.stream c.socket w.live
        w.now in
    (
      close_stream tools r error (record c { socket = r.socket; response_written = true }),
      record w { live = r.live; now = r.now },
    )

unfoldable pub relay_body : Tools → Execution → ℕ → Context → Context
unfolding take_tokens
relay_body tools res latency_ms c =
    let sent = record c {
      response_body = res.body;
      ttfb_ms = if c.ttfb_ms == 0 then latency_ms else c.ttfb_ms;
      response_written = true;
      socket = send res.response_code (raw res.body) c.socket;
    } in
    elim (tools.codec.decode res.body) [
      | none ↦ sent
      | some parsed ↦ take_tokens (extract_tokens parsed) sent
    ]

abbrev pub executor : String
executor = "Provider Executor"

unfoldable pub relay_answer : Tools → Execution → ℕ → Context → World → Context × World
unfolding relay_stream relay_body
relay_answer tools res latency_ms c w =
    let marked = record w { live = mark_stream w.live c.live_id res.is_stream w.now } in
    if res.is_stream
    then relay_stream tools res c marked
    else (relay_body tools res latency_ms c, marked)

unfoldable pub succeed : Context × World → Handler → Outcome
succeed (c, w) next =
    next (add_step c executor "success" (note "Response successfully received from upstream")) w

-- What follows the call of the adapter.
unfoldable pub executed : Tools → Execution → ℕ → Middleware
unfolding relay_answer succeed
executed tools res started next c w =
    let coded = record c { response_code = res.response_code; is_stream = res.is_stream } in
    elim res.error [
      | some error ↦ record {
        error = some error;
        ctx =
            add_step (record c { response_code = 500 }) executor "failed"
              (lit "Connection check failed: " ∷ lit error ∷ []);
        world = w;
      }
      | none ↦
          if ltb res.response_code 400
          then succeed (relay_answer tools res ((w.now - started) / 1_000_000) coded w) next
          else return
              (add_step (record coded { response_body = res.body }) executor "failed"
                (lit "Upstream node returned HTTP " ∷ num res.response_code ∷ []))
              w
    ]

unfoldable pub call_adapter : Tools → Adapters → Connection → Middleware
unfolding executed
call_adapter tools adapters connection next c w =
    let res =
      (adapter_for adapters c.provider).execute c.deadlines connection c.request_body w.now in
    executed tools res w.now next c (record w { now = res.finished })

-- `Provider`
unfoldable pub provider : Tools → Adapters → Middleware
unfolding call_adapter
provider tools adapters next c w = elim c.connection [
  | none ↦
      return
        (add_step (record c { response_code = 502; response_body = no_connection_body }) executor
          "failed"
          (lit "nil connection for provider="
            ∷ quoted c.provider
            ∷ lit " model="
            ∷ quoted c.model
            ∷ []))
        w
  | some connection ↦ call_adapter tools adapters connection next c w
]
