-- ===== src/Passthrough/Relays.antt =====
-- internal/gateway/passthrough.go: the handlers, each with one call of an upstream.
use my_ai_router.Common.{
  ℕ, ◌-◌, ◌&&◌, not, Option, none, some, List, [], ◌∷◌, ◌++◌, String, str_eq, append, ltb, ◌==◌,
  lit, quoted, note, Message, if◌then◌else◌,
}
use my_ai_router.Json.{Fields, end, member, set_member, string, string_at}
use my_ai_router.Config.Stored.{number_field, map_field, ◌>>=◌}
use my_ai_router.Context.{Connection, Socket, raw, api_error, send, write_header}
use my_ai_router.Pipeline.{World}
use my_ai_router.Passthrough.{
  Form, PassRequest, Relayed, Reply, UpstreamCall, Wire, answer_error, answered, bearer_of, broken,
  form_payload, found, json_payload, missing, passthrough_base, resolve_passthrough_target,
  unreachable,
}

-- `recordPassthroughUsage`: the entry carries no key of the caller.
unfoldable pub record_passthrough_usage : String → String → Connection → ℕ → ℕ → ℕ → World → World
record_passthrough_usage provider model c prompt completion status w = record w {
  usage =
      w.usage
      ++ (record {
        provider = provider;
        model = model;
        connection_id = c.id;
        api_key = "";
        prompt_tokens = prompt;
        completion_tokens = completion;
        cached_tokens = 0;
        status = if ltb status 400 then "success" else "failed";
        duration_ms = 0;
        ttfb_ms = 0;
        retry_count = 0;
        fallback = 0;
      })
        ∷ [];
}

abbrev pub fields_or : Option Fields → Fields
fields_or none = end
fields_or (some m) = m

-- The counts of an answer's "usage", where it decodes as the struct of `HandleEmbeddings`.
unfoldable pub usage_counts : Option Fields → Option (ℕ × ℕ)
unfolding number_field map_field
usage_counts none = none
usage_counts (some body) = do
  usage ← map_field (member "usage" body)
  prompt ← number_field (member "prompt_tokens" (fields_or usage))
  completion ← number_field (member "completion_tokens" (fields_or usage))
  total ← number_field (member "total_tokens" (fields_or usage))
  some (if (prompt == 0) && ltb completion total then total - completion else prompt, completion)

abbrev pub charge : String → Connection → ℕ → Option (ℕ × ℕ) → World → World
unfolding record_passthrough_usage
charge model c status none w = w
charge model c status (some (prompt, completion)) w =
    if ltb 0 prompt
    then record_passthrough_usage c.provider model c prompt completion status w
    else w

abbrev pub called_for : String → UpstreamCall → Socket → World → Relayed
called_for model call s w = record { socket = s; world = w; called = some (model, call) }

-- What the client gets of a reply.
unfoldable pub replied :
    String → UpstreamCall → (ℕ → String → World → World) → Socket → World → Reply → Relayed
replied model call settle s w (unreachable e) =
    called_for model call (send 502 (api_error (lit "Upstream request failed: " ∷ lit e ∷ [])) s) w
replied model call settle s w (broken e) =
    called_for model call (send 502 (api_error (lit "Reading upstream response: " ∷ lit e ∷ [])) s)
      w
replied model call settle s w (answered status body) =
    called_for model call (send status (raw body) s) (settle status body w)

-- The call and its answer. `settle` is what the endpoint records of an answer.
unfoldable pub relay :
    Wire → String → UpstreamCall → (ℕ → String → World → World) → Socket → World → Relayed
unfolding replied
relay wire model call settle s w =
    if wire.can_build call.url
    then replied model call settle s w (wire.exchange call)
    else answer_error 502 (note "Upstream request failed") s w

abbrev pub settle_embeddings : Wire → String → Connection → ℕ → String → World → World
unfolding usage_counts
settle_embeddings wire upstream c status answer =
    charge upstream c status (usage_counts (wire.decode answer))

-- The audio endpoints record nothing.
abbrev pub settle_audio : ℕ → String → World → World
settle_audio status answer w = w

abbrev pub no_base : Connection → Message
no_base c = lit "Provider " ∷ quoted c.provider ∷ lit " has no baseUrl configured" ∷ []

unfoldable pub call_embeddings :
    Wire → String → Fields → Connection → String → Option String → Socket → World → Relayed
unfolding relay charge usage_counts
call_embeddings wire model body c upstream none s w = answer_error 502 (no_base c) s w
call_embeddings wire model body c upstream (some base) s w =
    relay wire model
      (record {
        connection = c;
        url = append base "/embeddings";
        authorization = bearer_of c;
        payload = json_payload (set_member "model" (string upstream) body);
      })
      (settle_embeddings wire upstream c) s w

unfoldable pub embed : Wire → Fields → Socket → World → Relayed
unfolding resolve_passthrough_target call_embeddings
embed wire body s w =
    let model = string_at "model" body in
    elim (resolve_passthrough_target w model) [
      | missing code message ↦ answer_error code message s w
      | found c upstream ↦ call_embeddings wire model body c upstream (passthrough_base c) s w
    ]

abbrev pub method_not_allowed : Socket → World → Relayed
method_not_allowed s w = record { socket = write_header 405 s; world = w; called = none }

-- The body that is left for the handler.
abbrev pub handler_body : PassRequest → Option Fields
handler_body r = if r.is_json then r.decoded else r.leftover

-- `HandleEmbeddings`
unfoldable pub handle_embeddings : Wire → PassRequest → Socket → World → Relayed
unfolding embed
handle_embeddings wire r s w =
    if not r.is_post
    then method_not_allowed s w
    else if not r.readable
    then answer_error 400 (note "Failed to read request body") s w
    else elim (handler_body r) [
      | none ↦ answer_error 400 (note "Invalid JSON body") s w
      | some body ↦ embed wire body s w
    ]

-- Each value is written under its key, those of "model" with the upstream's name.
unfoldable pub relayed_values : String → String → List String → List (String × String)
relayed_values upstream key [] = []
relayed_values upstream key (v ∷ rest) =
    let later = relayed_values upstream key rest in
    (key, if str_eq key "model" then upstream else v) ∷ later

unfoldable pub relayed_fields : String → List (String × List String) → List (String × String)
unfolding relayed_values
relayed_fields upstream [] = []
relayed_fields upstream ((key, values) ∷ rest) =
    relayed_values upstream key values ++ relayed_fields upstream rest

unfoldable pub call_audio :
    Wire → String → String → Form → Connection → String → Option String → Socket → World → Relayed
unfolding relay relayed_fields
call_audio wire path model form c upstream none s w = answer_error 502 (no_base c) s w
call_audio wire path model form c upstream (some base) s w =
    relay wire model
      (record {
        connection = c;
        url = append base path;
        authorization = bearer_of c;
        payload = form_payload form.files (relayed_fields upstream form.fields);
      })
      settle_audio s w

unfoldable pub relay_form : Wire → String → String → Form → Socket → World → Relayed
unfolding resolve_passthrough_target call_audio
relay_form wire path model form s w = elim (resolve_passthrough_target w model) [
  | missing code message ↦ answer_error code message s w
  | found c upstream ↦ call_audio wire path model form c upstream (passthrough_base c) s w
]

-- A body of JSON is no form.
abbrev pub handler_form : PassRequest → Option Form
handler_form r = if r.is_json then none else r.form

-- `relayMultipart`. Files that cannot be opened or copied are left out.
unfoldable pub relay_multipart : Wire → String → PassRequest → Socket → World → Relayed
unfolding relay_form
relay_multipart wire path r s w =
    if not r.is_post then method_not_allowed s w else elim (handler_form r) [
      | none ↦ answer_error 400 (note "Invalid multipart form") s w
      | some form ↦ relay_form wire path r.form_model form s w
    ]

pub data Endpoint : Type 0 where
  embeddings transcriptions translations : Endpoint

unfoldable pub handle : Endpoint → Wire → PassRequest → Socket → World → Relayed
unfolding handle_embeddings relay_multipart
handle embeddings wire r s w = handle_embeddings wire r s w
handle transcriptions wire r s w = relay_multipart wire "/audio/transcriptions" r s w
handle translations wire r s w = relay_multipart wire "/audio/translations" r s w
