-- ===== src/Examples/Whole.antt =====
-- Runs of the whole pipeline, of its records and of the pass that collapses lines.
use my_ai_router.Common.{
  true, ◌≤◌, ◌≡◌, ◌⊎◌, refl, false, none, some, String, List, [], ◌∷◌, ◌++◌, note, ltb,
}
use my_ai_router.Context.{api_error, send, new_socket}
use my_ai_router.Pipeline.{Handler, UsageEntry, return}
use my_ai_router.Access.{Credentials, verdict, valid_cookie, first_active}
use my_ai_router.Retry.Attempt.{is_success}
use my_ai_router.Observability.{observability, status_of}
use my_ai_router.Observability.Answers.{Formats}
use my_ai_router.Observability.Records.{observability_records}
use my_ai_router.Gateway.{Services, Request, handle_chat}
use my_ai_router.Gateway.Refusal.{SameRouting, refused_at_the_door}
use my_ai_router.Optimizer.Dedup.{dedup_within}
use my_ai_router.Examples.{plain_text, quiet_world, request_for, body_for}
use my_ai_router.Examples.Upstream.{tools, plain_engine, one_adapter}

abbrev formats : Formats
formats = record { ops = plain_text; decode = λ s. some (body_for "fast"); show = λ n. "n" }

abbrev answering : Handler
answering c w = return (record c { response_code = 200; response_body = "hi" }) w

observability_records_example :
    let below = answering (request_for "fast") quiet_world in
    let above = observability formats answering (request_for "fast") quiet_world in
    (above.ctx.socket ≡ below.ctx.socket)
    × (above.error ≡ below.error)
    × ((entry : UsageEntry) × (above.world.usage ≡ below.world.usage ++ entry ∷ [])
        × (entry.status ≡ status_of (is_success below.error below.ctx.response_code))
        × ((is_success below.error below.ctx.response_code ≡ false)
            ⊎ ((1 ≤ entry.prompt_tokens) × (1 ≤ entry.completion_tokens))))
observability_records_example =
    observability_records formats answering (request_for "fast") quiet_world

abbrev no_keys : Credentials
no_keys = record {
  keys = [];
  lists = true;
  validates = λ key. true;
  finds = λ key. true;
  used_today = λ key. 0;
  sessions = [];
  authorization = "";
  cookie = none;
}

abbrev services : Services
services = record {
  formats = formats;
  tools = tools;
  credentials = no_keys;
  engine = plain_engine;
  adapters = one_adapter;
  low = λ body. ltb 1 0;
}

abbrev stranger : Request
stranger = record {
  id = "req-1";
  body = some "{}";
  no_compress = false;
  schedule = record { early = false; late = false; before = []; behind = [] };
}

refused_at_the_door_example :
    ((handle_chat services stranger quiet_world).0
      ≡ send 401 (api_error (note "Invalid or missing Bearer token")) new_socket)
    × SameRouting (handle_chat services stranger quiet_world).1 quiet_world
unfolding verdict valid_cookie first_active
refused_at_the_door_example =
    refused_at_the_door services stranger "{}" (body_for "fast") quiet_world 401
      (note "Invalid or missing Bearer token")
      (note "Missing valid Authorization header, session, or system API key") refl refl refl

abbrev log_lines : List String
log_lines = "a" ∷ "a" ∷ "a" ∷ "b" ∷ []

-- At the threshold 1 a run of two lines becomes three lines.
two_become_three :
    dedup_within (λ s. s) (λ n. "(repeated)") 1 2 ("a" ∷ "a" ∷ []) ≡ "a" ∷ "a" ∷ "(repeated)" ∷ []
unfolding dedup_within
two_become_three = refl

abbrev diff_lines : List String
diff_lines = "diff --git a/x b/x" ∷ "@@ -1 +1 @@" ∷ "-old" ∷ "+new" ∷ []
