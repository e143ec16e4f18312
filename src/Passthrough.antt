-- ===== src/Passthrough.antt =====
-- internal/gateway/passthrough.go, with `authenticatePassthrough` of internal/gateway/gateway.go: the
-- endpoints for embeddings and audio, which run authentication and then one upstream call. The
-- exchange with the upstream and the decoding of bodies and forms are outside.
pub mod Relays
pub mod Gate
pub mod Made
pub mod Scope
pub mod Ledger
use my_ai_router.Common.{
  ℕ, ◌-◌, Bool, true, false, ◌&&◌, not, Option, none, some, List, [], ◌∷◌, ◌++◌, map, String,
  str_eq, is_empty, append, trim_suffix, ltb, ◌==◌, lit, num, quoted, note, Message, if◌then◌else◌,
}
use my_ai_router.Json.{Json, Fields, end, member, set_member, string, string_at}
use my_ai_router.Config.Stored.{number_field, map_field, ◌>>=◌}
use my_ai_router.Context.{
  Connection, Target, Socket, raw, api_error, send, write_header, new_socket,
}
use my_ai_router.Pipeline.{World, UsageEntry}
use my_ai_router.Access.{Credentials, Verdict, verdict, admit, refuse}
use my_ai_router.Routing.Route.{resolve_targets}

-- A multipart form: its files by field, and its values by key.
pub record Form : Type 0 where
  pub files : List (String × String)
  pub fields : List (String × List String)

-- A request as the handlers see it. `decoded` is the body as a JSON object, `none` where it does not
-- decode. `form_model` is `r.FormValue("model")`, and `form` is `none` where the body is no multipart
-- form. `leftover` is the JSON object that the rest of the body decodes to once a form has been read:
-- the reader of a form stops behind its last part.
pub record PassRequest : Type 0 where
  pub id : String
  pub is_post : Bool
  pub is_json : Bool
  pub readable : Bool
  pub decoded : Option Fields
  pub form_model : String
  pub form : Option Form
  pub leftover : Option Fields

pub data Payload : Type 0 where
  json_payload : Fields → Payload
  form_payload : List (String × String) → List (String × String) → Payload

pub record UpstreamCall : Type 0 where
  pub connection : Connection
  pub url : String
  pub authorization : Option String
  pub payload : Payload

-- How an upstream call ends: without an answer, with one that breaks off, or with a whole one.
pub data Reply : Type 0 where
  unreachable : String → Reply
  broken : String → Reply
  answered : ℕ → String → Reply

pub record Wire : Type 0 where
  pub can_build : String → Bool
  pub exchange : UpstreamCall → Reply
  pub decode : String → Option Fields

-- What a handler leaves: the response, the shared state, and the call that it has made with the model
-- that the request names.
pub record Relayed : Type 0 where
  pub socket : Socket
  pub world : World
  pub called : Option (String × UpstreamCall)

abbrev pub answer_error : ℕ → Message → Socket → World → Relayed
answer_error code message s w = record {
  socket = send code (api_error message) s;
  world = w;
  called = none;
}

pub data Resolved : Type 0 where
  found : Connection → String → Resolved
  missing : ℕ → Message → Resolved

abbrev pub first_target : String → List Target → Resolved
first_target model [] =
    missing 503 (lit "No active upstream connections found for model " ∷ quoted model ∷ [])
first_target model (t ∷ rest) = found t.connection t.model_name

-- `resolvePassthroughTarget`
unfoldable pub resolve_passthrough_target : World → String → Resolved
unfolding resolve_targets
resolve_passthrough_target w model =
    if is_empty model
    then missing 400 (note "Missing model parameter")
    else first_target model (resolve_targets w (model ∷ []))

-- The table of `defaultBaseUrlFor`, in its order; behind it stands OpenAI.
abbrev pub base_urls : List (String × String)
base_urls =
    ("groq", "https://api.groq.com/openai/v1")
    ∷ ("nvidia", "https://integrate.api.nvidia.com/v1")
    ∷ ("openrouter", "https://openrouter.ai/api/v1")
    ∷ ("deepseek", "https://api.deepseek.com/v1")
    ∷ ("glm", "https://open.bigmodel.cn/api/paas/v4")
    ∷ ("opencode-zen", "https://opencode.ai/zen/v1")
    ∷ ("opencode", "https://opencode.ai/zen/v1")
    ∷ ("opencode-go", "https://opencode.ai/zen/go/v1")
    ∷ ("kenari", "https://kenari.id/v1")
    ∷ ("sumopod", "https://ai.sumopod.com/v1")
    ∷ ("mistral", "https://api.mistral.ai/v1")
    ∷ ("ollama", "http://localhost:11434/v1")
    ∷ ("qwen", "https://dashscope.aliyuncs.com/compatible-mode/v1")
    ∷ ("cerebras", "https://api.cerebras.ai/v1")
    ∷ ("fireworks", "https://api.fireworks.ai/inference/v1")
    ∷ ("anthropic", "https://api.anthropic.com/v1")
    ∷ ("gemini", "https://generativelanguage.googleapis.com/v1beta")
    ∷ []

unfoldable pub url_for : String → List (String × String) → String
url_for provider [] = "https://api.openai.com/v1"
url_for provider ((p, url) ∷ rest) =
    let later = url_for provider rest in if str_eq provider p then url else later

abbrev pub default_base_url_for : String → String
default_base_url_for provider = url_for provider base_urls

-- `passthroughBase`
unfoldable pub passthrough_base : Connection → Option String
passthrough_base c =
    let own = string_at "baseUrl" c.settings in
    let base = if is_empty own then default_base_url_for c.provider else own in
    if is_empty base then none else some (trim_suffix base "/")

abbrev pub bearer_of : Connection → Option String
bearer_of c =
    let key = string_at "apiKey" c.settings in
    if is_empty key then none else some (append "Bearer " key)
