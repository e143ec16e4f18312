-- ===== src/Examples/Upstream.antt =====
-- Runs of what lies between the gateway and an upstream: preparation, translation and the call.
use my_ai_router.Common.{◌+◌, ◌≡◌, ◌⊎◌, refl, true, false, none, some, String, List, [], ◌∷◌, get}
use my_ai_router.Json.{
  Json, Fields, Items, string, object, array, field, end, nil, cons, member, as_array, items_list,
}
use my_ai_router.Config.{Settings, ModelConfig, CompressionConfig}
use my_ai_router.Context.{Context}
use my_ai_router.Pipeline.{World, return}
use my_ai_router.Translators.{Codec, content_chunk}
use my_ai_router.Provider.{Adapter, Adapters, provider}
use my_ai_router.Provider.Events.{Tools, Stream}
use my_ai_router.Provider.Writes.{Settled, provider-Settled}
use my_ai_router.Prepare.{prepare, with_usage}
use my_ai_router.Prepare.Body.{Engine, compress_body, compress_older, preserve_count, unprepared}
use my_ai_router.Prepare.Ends.{KeepsEnds, messages_of, compress_body-KeepsEnds}
use my_ai_router.Prepare.OptOut.{opt_out_sticks}
use my_ai_router.Examples.{
  plain_text, quiet_world, request_for, account, login_settings, two_accounts,
}

-- A codec that knows one chunk.
abbrev hello_chunk : Fields
hello_chunk = content_chunk "hello"

abbrev one_chunk : Codec
one_chunk = record { decode = λ s. some hello_chunk; encode = λ m. "{hello}" }

abbrev pub tools : Tools
tools = record { ops = plain_text; codec = one_chunk }

abbrev silent_stream : Stream
silent_stream = record { arrivals = []; failure = none }

abbrev overloaded : Adapter
overloaded = record {
  name = "openai";
  execute = λ deadlines connection body now. record {
    error = none;
    response_code = 503;
    body = "busy";
    is_stream = false;
    stream = silent_stream;
    finished = now + 5;
  };
}

abbrev pub one_adapter : Adapters
one_adapter = record { named = []; openai = overloaded }

abbrev placed : Context
placed = record (request_for "gpt-4o") { connection = some (account "a1" "openai" 1) }

provider-Settled_example :
    Settled tools one_adapter placed quiet_world
      (provider tools one_adapter return placed quiet_world)
provider-Settled_example = provider-Settled tools one_adapter placed quiet_world

abbrev two_lines : Stream
two_lines = record {
  arrivals =
      record { at = 5; line = "data: {hello}" }
      ∷ record { at = 6; line = "" }
      ∷ record { at = 7; line = "data: [DONE]" }
      ∷ [];
  failure = none;
}

abbrev text_delta : Fields
text_delta = field "text" (string "hello") end

abbrev claude_chunk : Fields
claude_chunk = field "type" (string "content_block_delta") (field "delta" (object text_delta) end)

abbrev policy : CompressionConfig
policy = record {
  enabled = true;
  strategy = "balanced";
  trigger = "threshold";
  threshold_tokens = 10;
  preserve_recent_messages = 1;
}

abbrev long_model : ModelConfig
long_model = record {
  id = "gpt-4o";
  name = "gpt-4o";
  routing = record { primary_provider = "openai"; fallback_model = none };
  compression = policy;
}

abbrev pub plain_engine : Engine
plain_engine = record {
  registry = record { passes = []; validators = []; engines = [] };
  analyzers = [];
  detect = λ text. none;
  prompts = record { caveman = ""; ponytail = "" };
  headroom = λ url model messages. some (string "short" ∷ []);
}

abbrev headroom_settings : Settings
headroom_settings = record login_settings { headroom_enabled = true; headroom_url = "http://h" }

abbrev said : String → String → Json
said role text = object (field "role" (string role) (field "content" (string text) end))

abbrev talk : Items
talk =
    cons (said "system" "be brief")
      (cons (said "user" "one") (cons (said "user" "two") (cons (said "user" "three") nil)))

abbrev talk_body : Fields
talk_body = field "messages" (array talk) end

compress_body-KeepsEnds_example :
    let done =
      (compress_body plain_engine headroom_settings long_model talk_body
        (unprepared "balanced")).0 in
    (done ≡ talk_body)
    ⊎ ((after : List Json) × (messages_of done ≡ some after)
        × KeepsEnds
            (compress_older plain_engine headroom_settings "gpt-4o")
            (preserve_count policy)
            (items_list talk)
            after)
unfolding member as_array
compress_body-KeepsEnds_example =
    compress_body-KeepsEnds plain_engine headroom_settings long_model talk_body talk
      (unprepared "balanced") refl

abbrev with_policy : World
with_policy = record quiet_world {
  config = record two_accounts { model_configs = ("gpt-4o", long_model) ∷ [] };
}

abbrev opting_out : Context
opting_out = record (request_for "gpt-4o") { model = "gpt-4o"; no_compress = true }

abbrev asking_again : Context
asking_again = record (request_for "gpt-4o") { model = "gpt-4o" }

opt_out_sticks_example :
    (prepare plain_engine
      (λ name. name)
      return
      asking_again
      (prepare plain_engine (λ name. name) return opting_out with_policy).world).ctx.request_body
    ≡ with_usage asking_again.is_stream asking_again.request_body
unfolding get
opt_out_sticks_example =
    opt_out_sticks plain_engine (λ name. name) opting_out asking_again with_policy
      (prepare plain_engine (λ name. name) return opting_out with_policy).world long_model refl refl
      refl refl refl
