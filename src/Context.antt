-- ===== src/Context.antt =====
-- internal/gateway/context/context.go: the state of one request on its way through the pipeline.
-- A step keeps its name, status and details; its times and rates are left out.
pub mod Writes
use my_ai_router.Common.{
  ℕ, ◌+◌, ◌≤◌, Bool, true, false, Option, none, some, List, [], ◌∷◌, ◌++◌, String, Message, note,
  ltb, ◌==◌, if◌then◌else◌, is_empty, not,
}
use my_ai_router.Json.{Fields, Json, set_member}
use my_ai_router.Policy.{AttemptPolicy}
use my_ai_router.Live.{ActivityTracker, begin_activity}
use my_ai_router.Live.Sessions.{finish, set_step}

-- `db.ProviderConnection`, the columns that routing reads.
pub record Connection : Type 0 where
  pub id : String
  pub provider : String
  pub priority : ℕ
  pub is_active : Bool
  pub settings : Fields

-- `ConnectionModel`: one upstream that a request may be sent to.
pub record Target : Type 0 where
  pub connection : Connection
  pub model_name : String
  pub provider : String

pub record TraceStep : Type 0 where
  pub name : String
  pub status : String
  pub details : Message

pub record TargetAttempt : Type 0 where
  pub index : ℕ
  pub provider : String
  pub model : String
  pub connection_id : String
  pub status : String
  pub response_code : ℕ
  pub duration_ms : ℕ
  pub error : Message

pub record PrepareResult : Type 0 where
  pub modified : Bool
  pub compression_applied : Bool
  pub original_tokens : ℕ
  pub prepared_tokens : ℕ
  pub compressed_tokens : ℕ
  pub protected_prefix_tokens : ℕ
  pub protected_suffix_tokens : ℕ
  pub strategy : String

-- A whole percentage, which is negative where preparation added tokens.
pub data Percent : Type 0 where
  saved : ℕ → Percent
  added : ℕ → Percent

-- The keys of `ctx.Metadata`, each with the one type that the code stores under it. An absent key
-- reads as its type's zero value, as behind `v, _ := m[key].(T)`.
pub record Metadata : Type 0 where
  pub models_to_try : List String
  pub combo_kind : String
  pub combo_name : String
  pub is_combo : Bool
  pub attempt_policy : Option AttemptPolicy
  pub routing_targets : List Target
  pub prepare_result : Option PrepareResult
  pub compression_pct : Option Percent

-- What has gone out on the client's socket: the status line, once, and then pieces of body. An
-- error body stands for the JSON object that holds its message.
pub data Chunk : Type 0 where
  raw : String → Chunk
  api_error : Message → Chunk

pub record Socket : Type 0 where
  pub status : Option ℕ
  pub chunks : List Chunk

pub record Context : Type 0 where
  pub deadlines : List ℕ
  pub started : ℕ
  pub no_compress : Bool
  pub request_id : String
  pub user_id : String
  pub model : String
  pub original_model : String
  pub provider : String
  pub prompt_tokens : ℕ
  pub completion_tokens : ℕ
  pub cached_tokens : ℕ
  pub ttfb_ms : ℕ
  pub metadata : Metadata
  pub steps : List TraceStep
  pub target_attempts : List TargetAttempt
  pub socket : Socket
  pub request_body : Fields
  pub response_code : ℕ
  pub response_body : String
  pub is_stream : Bool
  pub response_written : Bool
  pub connection : Option Connection
  pub live_id : String
  pub live_finished : Bool
  pub retry_count : ℕ
  pub fallback_count : ℕ
  pub errors : List Message

abbrev pub empty_metadata : Metadata
empty_metadata = record {
  models_to_try = [];
  combo_kind = "";
  combo_name = "";
  is_combo = false;
  attempt_policy = none;
  routing_targets = [];
  prepare_result = none;
  compression_pct = none;
}

abbrev pub new_socket : Socket
new_socket = record { status = none; chunks = [] }

-- `NewGatewayContext`; `no_compress` is the test of the request's header "X-No-Compress". For a request that `HandleChatCompletions` has decoded.
abbrev pub new_context : String → Fields → Bool → ℕ → Bool → Context
new_context request_id body is_stream started no_compress = record {
  deadlines = [];
  started = started;
  no_compress = no_compress;
  request_id = request_id;
  user_id = "";
  model = "";
  original_model = "";
  provider = "";
  prompt_tokens = 0;
  completion_tokens = 0;
  cached_tokens = 0;
  ttfb_ms = 0;
  metadata = empty_metadata;
  steps = [];
  target_attempts = [];
  socket = new_socket;
  request_body = body;
  response_code = 0;
  response_body = "";
  is_stream = is_stream;
  response_written = false;
  connection = none;
  live_id = "";
  live_finished = false;
  retry_count = 0;
  fallback_count = 0;
  errors = [];
}

unfoldable pub add_step : Context → String → String → Message → Context
add_step c name status details = record c {
  steps = c.steps ++ record { name = name; status = status; details = details } ∷ [];
}

-- `w.WriteHeader(code)`: a second status line is dropped by net/http.
abbrev pub write_header : ℕ → Socket → Socket
write_header code s = record s { status = elim s.status [ none ↦ some code | some old ↦ some old ] }

-- `w.Write(p)`, which sends status 200 first where none has gone out.
abbrev pub write_chunk : Chunk → Socket → Socket
write_chunk chunk s = record (write_header 200 s) { chunks = s.chunks ++ chunk ∷ [] }

abbrev pub send : ℕ → Chunk → Socket → Socket
send code chunk s = write_chunk chunk (write_header code s)

unfoldable pub write_error : Context → ℕ → Message → Context
write_error c code message = if c.response_written then c else record c {
  response_written = true;
  response_code = code;
  socket = send code (api_error message) c.socket;
}

-- `writeUpstreamError` of middleware/retry.go. The flag is set before the test of the body, as there.
unfoldable pub write_upstream_error : Context → ℕ → Context
unfolding write_error
write_upstream_error c upstream_status =
    let status = if ltb upstream_status 400 then 502 else upstream_status in
    let coded = record c { response_code = status } in
    let marked = record coded { response_written = true } in
    if c.response_written
    then coded
    else if not (is_empty c.response_body)
    then record marked { socket = send status (raw c.response_body) c.socket }
    else write_error marked status (note "Upstream request failed")

unfoldable pub clone_for_target :
    Context → List ℕ → Connection → String → String → Fields → ℕ → Context
clone_for_target c deadlines connection model provider body now = record {
  deadlines = deadlines;
  started = now;
  no_compress = c.no_compress;
  request_id = c.request_id;
  user_id = c.user_id;
  model = model;
  original_model = c.original_model;
  provider = provider;
  prompt_tokens = 0;
  completion_tokens = 0;
  cached_tokens = 0;
  ttfb_ms = 0;
  metadata = c.metadata;
  steps = [];
  target_attempts = [];
  socket = c.socket;
  request_body = set_member "model" (Json.string model) body;
  response_code = 0;
  response_body = "";
  is_stream = c.is_stream;
  response_written = false;
  connection = some connection;
  live_id = c.live_id;
  live_finished = false;
  retry_count = 0;
  fallback_count = 0;
  errors = [];
}

unfoldable pub begin_live_activity :
    Context → String → ActivityTracker → ℕ → Context × ActivityTracker
begin_live_activity c model live now =
    let (live', id) = begin_activity live c.request_id model now in
    (record c { live_id = id }, live')

unfoldable pub finish_live_activity : Context → ActivityTracker → ℕ → Context × ActivityTracker
finish_live_activity c live now =
    if is_empty c.live_id then (c, live) else if c.live_finished then (c, live) else (
      record c { live_finished = true },
      finish live c.live_id c.response_code (ltb c.response_code 400) c.prompt_tokens
          c.completion_tokens "" now,
    )
