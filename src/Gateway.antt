-- ===== src/Gateway.antt =====
-- internal/gateway/gateway.go: the endpoint of chat completions, which runs the whole pipeline.
pub mod Refusal
use my_ai_router.Common.{
  ℕ, Bool, true, false, Option, none, some, String, List, [], ◌∷◌, TextOps, if◌then◌else◌,
}
use my_ai_router.Json.{Fields, member, as_bool, string_at}
use my_ai_router.Context.{
  Context, Socket, raw, send, new_socket, new_context, begin_live_activity, finish_live_activity,
}
use my_ai_router.Pipeline.{World, Outcome, Middleware, run}
use my_ai_router.Access.{Credentials, auth}
use my_ai_router.Limiter.{rate_limit}
use my_ai_router.Resolver.{resolver}
use my_ai_router.Routing.Route.{routing}
use my_ai_router.Retry.{retry}
use my_ai_router.Retry.Strategies.{Schedule}
use my_ai_router.Prepare.{prepare}
use my_ai_router.Prepare.Body.{Engine}
use my_ai_router.Guardrail.{guardrail}
use my_ai_router.Provider.{Adapters, adapter_for, provider}
use my_ai_router.Provider.Events.{Tools}
use my_ai_router.Observability.{observability}
use my_ai_router.Observability.Answers.{Formats}

-- What the pipeline is built on: the standard library, the accounts of callers, the engine of
-- preparation and the adapters. `low` is the test for an answer of low confidence.
pub record Services : Type 0 where
  pub formats : Formats
  pub tools : Tools
  pub credentials : Credentials
  pub engine : Engine
  pub adapters : Adapters
  pub low : String → Bool

-- A request as the server hands it over, with the id that it is given and the order in which its
-- concurrent attempts report. `none` stands for a body that cannot be read.
pub record Request : Type 0 where
  pub id : String
  pub body : Option String
  pub no_compress : Bool
  pub schedule : Schedule

abbrev pub stages : Services → Request → List Middleware
stages s r =
    observability s.formats
    ∷ auth s.credentials
    ∷ rate_limit
    ∷ resolver s.formats.ops
    ∷ routing s.formats.ops
    ∷ retry r.schedule s.low
    ∷ prepare s.engine (λ name. (adapter_for s.adapters name).name)
    ∷ guardrail s.formats.ops
    ∷ provider s.tools s.adapters
    ∷ []

abbrev pub bad_request : String → Socket
bad_request body = send 400 (raw body) new_socket

abbrev pub is_stream_request : Fields → Bool
is_stream_request body = elim (as_bool (member "stream" body)) [ none ↦ false | some b ↦ b ]

-- A request that has been decoded: the pipeline runs, and the live record is closed in any case.
unfoldable pub serve : Services → Request → Fields → World → Socket × World
unfolding begin_live_activity finish_live_activity run
serve s r body w =
    let fresh = new_context r.id body (is_stream_request body) w.now r.no_compress in
    let (c, live) = begin_live_activity fresh (string_at "model" body) w.live w.now in
    let o = run (stages s r) c (record w { live = live }) in
    let (done, closed) = finish_live_activity o.ctx o.world.live o.world.now in
    (done.socket, record o.world { live = closed })

unfoldable pub handle_decoded : Services → Request → Option Fields → World → Socket × World
unfolding serve
handle_decoded s r none w = (bad_request "{\"error\":\"Invalid JSON body\"}\n", w)
handle_decoded s r (some body) w = serve s r body w

-- `HandleChatCompletions`
unfoldable pub handle_chat : Services → Request → World → Socket × World
unfolding handle_decoded
handle_chat s r w = elim r.body [
  | none ↦ (bad_request "{\"error\":\"Failed to read request body\"}\n", w)
  | some text ↦ handle_decoded s r (s.formats.decode text) w
]
