-- ===== src/Examples/Doors.antt =====
-- Runs of the pass-through endpoints and of the usage log.
use my_ai_router.Common.{
  ◌&&◌, not, ◌≡◌, refl, inl, ℕ, true, false, Option, none, some, List, [], ◌∷◌, String, get, ◌+◌,
}
use my_ai_router.Json.{Fields, end, field, string, number, object, member, as_string, set_member}
use my_ai_router.Access.{
  ApiKey, Credentials, key_record, find_key, verdict, with_bearer, check_scope, check_budget,
  model_allowed, is_listed, daily_limit_exceeded,
}
use my_ai_router.Config.{active_connections, model_config}
use my_ai_router.Health.{in_cooldown}
use my_ai_router.Routing.Order.{order_by_health, order_groups, sort_stable, span_group}
use my_ai_router.Routing.Targets.{candidate_targets, connections_for, collect_all}
use my_ai_router.Passthrough.{
  url_for, PassRequest, Wire, UpstreamCall, answered, Relayed, resolve_passthrough_target,
  passthrough_base,
}
use my_ai_router.Passthrough.Gate.{guarded, passthrough, auth_body}
use my_ai_router.Passthrough.Relays.{
  embeddings, transcriptions, handle, handle_embeddings, embed, call_embeddings, relay, replied,
}
use my_ai_router.Passthrough.Scope.{WithinScope, guarded-WithinScope}
use my_ai_router.Passthrough.Ledger.{Uncharged, guarded-Uncharged}
use my_ai_router.Usage.{UsageRow, tokens_used, or_zero}
use my_ai_router.Usage.Totals.{
  no_usage, save_all, GrownBy, save_all-summed, total, is_of, tokens_used-save_all,
}
use my_ai_router.Database.Table.{find_row}
use my_ai_router.Database.ApiKeys.{
  KeyRow, new_key, key_id, owns, validate_api_key, toggle_api_key, toggle_api_key-off,
}
use my_ai_router.Examples.{quiet_world, login_settings}

abbrev guest_key : ApiKey
guest_key = record {
  key = "k1";
  is_active = true;
  scope = record { allowed_models = "openai/embed" ∷ []; daily_token_limit = 100 };
}

abbrev guest : Credentials
guest = record {
  keys = guest_key ∷ [];
  lists = true;
  validates = λ key. true;
  finds = λ key. true;
  used_today = λ key. 40;
  sessions = [];
  authorization = "Bearer k1";
  cookie = none;
}

abbrev answers : Wire
answers = record {
  can_build = λ url. true;
  exchange = λ call. answered 200 "{}";
  decode = λ text. some (field "usage" (object (field "prompt_tokens" (number 7) end)) end);
}

abbrev embed_body : Fields
embed_body = field "model" (string "openai/embed") end

abbrev embed_request : PassRequest
embed_request = record {
  id = "r1";
  is_post = true;
  is_json = true;
  readable = true;
  decoded = some embed_body;
  form_model = "";
  form = none;
  leftover = none;
}

guarded-WithinScope_example :
    WithinScope guest guest_key
      (guarded embeddings answers guest embed_request embed_body quiet_world)
unfolding find_key auth_body member
guarded-WithinScope_example =
    guarded-WithinScope embeddings answers login_settings guest embed_request embed_body quiet_world
      "k1" guest_key refl refl refl refl refl refl refl (inl refl) refl

guarded-Uncharged_example :
    Uncharged quiet_world
      (guarded embeddings answers guest embed_request embed_body quiet_world).world
guarded-Uncharged_example =
    guarded-Uncharged embeddings answers guest embed_request embed_body quiet_world

abbrev named_model : Option (String × UpstreamCall) → Option String
named_model none = none
named_model (some (model, call)) = some model

-- A form that names an allowed model, with a JSON body behind its last part that names another.
abbrev smuggled_request : PassRequest
smuggled_request = record {
  id = "r2";
  is_post = true;
  is_json = false;
  readable = true;
  decoded = none;
  form_model = "openai/embed";
  form = some (record { files = []; fields = [] });
  leftover = some (field "model" (string "openai/secret") end);
}

outcome_model : Option Relayed → Option String
outcome_model none = none
outcome_model (some out) = named_model out.called

-- A request that is neither JSON nor a form ends with a panic.
plain_request_panics :
    passthrough transcriptions answers guest (record smuggled_request { form = none }) quiet_world
    ≡ none
unfolding passthrough auth_body
plain_request_panics = refl

abbrev usage_row : String → ℕ → UsageRow
usage_row key tokens = record {
  timestamp = "2026-01-02T03:04:05Z";
  provider = "openai";
  model = "gpt";
  connection_id = "a1";
  api_key = key;
  endpoint = "/v1/chat/completions";
  prompt_tokens = tokens;
  completion_tokens = 1;
  cached_tokens = 0;
  status = "ok";
}

abbrev two_entries : List (String × UsageRow)
two_entries = ("now", usage_row "k1" 5) ∷ ("now", usage_row "k2" 7) ∷ []

save_all-summed_example :
    GrownBy "2026-01-02" two_entries
      (or_zero (get "2026-01-02" no_usage.daily))
      (or_zero (get "2026-01-02" (save_all two_entries no_usage).daily))
save_all-summed_example = save_all-summed two_entries no_usage "2026-01-02"

tokens_used-save_all_example :
    tokens_used (λ t. true) "k1" (save_all two_entries no_usage).history
    ≡ tokens_used (λ t. true) "k1" no_usage.history
      + total (is_of (λ t. true) "k1") (λ r. r.prompt_tokens + r.completion_tokens) two_entries
tokens_used-save_all_example = tokens_used-save_all (λ t. true) "k1" two_entries no_usage

-- The key is checked for the model of the form, and the upstream is called for the other one.
scope_is_evaded :
    outcome_model (passthrough embeddings answers guest smuggled_request quiet_world)
    ≡ some "openai/secret"
unfolding outcome_model passthrough auth_body guarded handle handle_embeddings embed call_embeddings
    relay replied resolve_passthrough_target passthrough_base verdict with_bearer check_scope
    check_budget model_allowed is_listed daily_limit_exceeded key_record find_key member as_string
    set_member order_by_health order_groups candidate_targets connections_for active_connections
    model_config get collect_all in_cooldown sort_stable span_group url_for
scope_is_evaded = refl

abbrev two_keys : List KeyRow
two_keys = new_key "1" "k1" "first" "t0" ∷ new_key "2" "k2" "second" "t0" ∷ []

toggle_api_key-off_example :
    validate_api_key "k1" (toggle_api_key true "1" false two_keys)
    ≡ (validate_api_key "k1" two_keys && not (owns "k1" (find_row key_id "1" two_keys)))
unfolding find_row
toggle_api_key-off_example =
    toggle_api_key-off "1" "k1" two_keys (refl, (refl, tt)) (refl, (refl, tt))
