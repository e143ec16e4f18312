-- ===== src/Passthrough/Scope.antt =====
-- Per-key scoping in front of the pass-through endpoints.
use my_ai_router.Common.{
  ◌≡◌, ◌⊎◌, refl, sym, ap, subst, ◌∙◌, Bool, true, false, true≢false, Option, none, some, String,
  is_empty, eq_iff, Bool-cases, Option-cases, inl, inr,
}
use my_ai_router.Json.{Json, Fields, end, member, set_member, string_at, as_string}
use my_ai_router.Context.{Socket, new_socket}
use my_ai_router.Pipeline.{World}
use my_ai_router.Config.{Settings}
use my_ai_router.Access.{
  ApiKey, Credentials, Verdict, verdict, bearer, find_key, model_allowed, daily_limit_exceeded,
}
use my_ai_router.Access.Admission.{key_verdict, found-Scoped, Scoped}
use my_ai_router.Passthrough.{Wire, PassRequest, Relayed, UpstreamCall, Form}
use my_ai_router.Passthrough.Gate.{guarded, auth_body, with_model, behind_verdict}
use my_ai_router.Passthrough.Relays.{
  Endpoint, embeddings, transcriptions, translations, handle, fields_or, handle_embeddings, embed,
  relay_multipart, relay_form,
}
use my_ai_router.Passthrough.Made.{MadeFor, embed-MadeFor, relay_form-MadeFor, some≢none}

-- A call for no model has not been made.
uncalled : (out : Relayed) → MadeFor "" out → out.called ≡ none
unfolding MadeFor
uncalled out (inl none_called) = none_called
uncalled out (inr (call, made, named)) = elim (true≢false named) [ ]

MadeFor-none : (model : String) (out : Relayed) → out.called ≡ none → MadeFor model out
unfolding MadeFor
MadeFor-none model out h = inl h

absent_text : (body : Fields) → member "model" body ≡ none → string_at "model" body ≡ ""
unfolding as_string
absent_text body absent = rw (string_at, absent) refl

with_model_present :
    (form_model : String) (body : Fields) (v : Json)
    → member "model" body ≡ some v
    → with_model form_model body ≡ body
with_model_present form_model body v present = rw (with_model, present) refl

with_model_form : (form_model : String) → string_at "model" (with_model form_model end) ≡ form_model
unfolding member set_member as_string
with_model_form form_model = elim (Bool-cases (is_empty form_model)) [
  | inl e ↦ rw e (sym ((eq_iff form_model "").0 e))
  | inr e ↦ rw e refl
]

-- The model that Auth reads of a JSON body is the one that the handler reads, or there is no call.
embed_checked :
    (wire : Wire) (form_model : String) (body : Fields) (s : Socket) (w : World)
    → MadeFor (string_at "model" (with_model form_model body)) (embed wire body s w)
embed_checked wire form_model body s w = elim (Option-cases (member "model" body)) [
  | inl absent ↦ MadeFor-none _ (embed wire body s w) (
      uncalled (embed wire body s w) (
        subst (λ m. MadeFor m (embed wire body s w)) (absent_text body absent)
          (embed-MadeFor wire body s w)))
  | inr (v, present) ↦
      subst (λ b. MadeFor (string_at "model" b) (embed wire body s w))
        (sym (with_model_present form_model body v present)) (embed-MadeFor wire body s w)
]

abbrev request :
    String → Bool → Bool → Bool → Option Fields → String → Option Form → Option Fields → PassRequest
request id post json readable decoded form_model form leftover = record {
  id = id;
  is_post = post;
  is_json = json;
  readable = readable;
  decoded = decoded;
  form_model = form_model;
  form = form;
  leftover = leftover;
}

Checked : Endpoint → Wire → PassRequest → Fields → Socket → World → Type 0
Checked e wire r body s w = MadeFor (string_at "model" body) (handle e wire r s w)

embeddings-Checked :
    (wire : Wire) (body : Fields) (s : Socket) (w : World) (id : String) (post json readable : Bool)
    (decoded : Option Fields) (form_model : String) (form : Option Form) (leftover : Option Fields)
    → (json ≡ true) ⊎ (leftover ≡ none)
    → auth_body (request id post json readable decoded form_model form leftover) ≡ some body
    → Checked embeddings wire
        (request id post json readable decoded form_model form leftover)
        body
        s
        w
unfolding Checked handle handle_embeddings auth_body MadeFor
embeddings-Checked wire body s w id false json readable decoded fm form leftover whole c = inl refl
embeddings-Checked wire body s w id true json false decoded fm form leftover whole c = inl refl
embeddings-Checked wire body s w id true true true none fm form leftover whole c = inl refl
embeddings-Checked wire body s w id true true true (some b) fm form leftover whole c =
    subst (λ y. MadeFor (string_at "model" y) (embed wire b s w)) (ap fields_or c)
      (embed_checked wire fm b s w)
embeddings-Checked wire body s w id true false true decoded fm form none whole c = inl refl
embeddings-Checked wire body s w id true false true decoded fm form (some l) (inl e) c =
    elim (true≢false (sym e)) [ ]
embeddings-Checked wire body s w id true false true decoded fm form (some l) (inr e) c =
    elim (some≢none l e) [ ]

audio-Checked :
    (wire : Wire) (path : String) (body : Fields) (s : Socket) (w : World) (id : String)
    (post json readable : Bool) (decoded : Option Fields) (form_model : String) (form : Option Form)
    (leftover : Option Fields)
    → auth_body (request id post json readable decoded form_model form leftover) ≡ some body
    → MadeFor (string_at "model" body) (
        relay_multipart wire path
          (request id post json readable decoded form_model form leftover)
          s
          w)
unfolding relay_multipart auth_body MadeFor
audio-Checked wire path body s w id false json readable decoded fm form leftover c = inl refl
audio-Checked wire path body s w id true true readable decoded fm form leftover c = inl refl
audio-Checked wire path body s w id true false readable decoded fm none leftover c = inl refl
audio-Checked wire path body s w id true false readable decoded fm (some f) leftover c =
    subst (λ m. MadeFor m (relay_form wire path fm f s w))
      (sym (with_model_form fm) ∙ ap (λ b. string_at "model" (fields_or b)) c)
      (relay_form-MadeFor wire path fm f s w)

handle-Checked :
    (e : Endpoint) (wire : Wire) (r : PassRequest) (body : Fields) (s : Socket) (w : World)
    → (r.is_json ≡ true) ⊎ (r.leftover ≡ none)
    → auth_body r ≡ some body
    → Checked e wire r body s w
unfolding Checked handle
handle-Checked embeddings wire r body s w whole c =
    embeddings-Checked wire body s w r.id r.is_post r.is_json r.readable r.decoded r.form_model
      r.form r.leftover whole c
handle-Checked transcriptions wire r body s w whole c =
    audio-Checked wire "/audio/transcriptions" body s w r.id r.is_post r.is_json r.readable
      r.decoded r.form_model r.form r.leftover c
handle-Checked translations wire r body s w whole c =
    audio-Checked wire "/audio/translations" body s w r.id r.is_post r.is_json r.readable r.decoded
      r.form_model r.form r.leftover c

-- What a call of the upstream tells of the key that it was made under.
abbrev pub WithinScope : Credentials → ApiKey → Relayed → Type 0
WithinScope cr k out =
    (out.called ≡ none)
    ⊎ ((model : String) × (call : UpstreamCall) × (out.called ≡ some (model, call))
        × (model_allowed k model ≡ true)
        × (daily_limit_exceeded cr k ≡ false))

checked-WithinScope :
    (cr : Credentials) (k : ApiKey) (model : String) (out : Relayed)
    → (model ≡ "") ⊎ (model_allowed k model ≡ true)
    → daily_limit_exceeded cr k ≡ false
    → MadeFor model out
    → WithinScope cr k out
unfolding MadeFor
checked-WithinScope cr k model out listed left (inl uncalled) = inl uncalled
checked-WithinScope cr k model out (inl unnamed) left (inr (call, made, named)) =
    elim (true≢false (sym ((eq_iff model "").1 unnamed) ∙ named)) [ ]
checked-WithinScope cr k model out (inr listed) left (inr (call, made, named)) =
    inr (model, call, made, listed, left)

behind_verdict-WithinScope :
    (e : Endpoint) (wire : Wire) (cr : Credentials) (r : PassRequest) (body : Fields) (w : World)
    (key : String) (k : ApiKey) (v : Verdict)
    → (r.is_json ≡ true) ⊎ (r.leftover ≡ none)
    → auth_body r ≡ some body
    → Scoped cr key (string_at "model" body) k v
    → WithinScope cr k (behind_verdict e wire r w v)
unfolding MadeFor Checked
behind_verdict-WithinScope e wire cr r body w key k v whole c scoped = elim scoped [
  | inl (admitted, listed, left) ↦
      subst (λ x. WithinScope cr k (behind_verdict e wire r w x)) (sym admitted)
        (checked-WithinScope cr k (string_at "model" body) (handle e wire r new_socket w) listed
          left (handle-Checked e wire r body new_socket w whole c))
  | inr (inl (m, d, refused, out)) ↦
      subst (λ x. WithinScope cr k (behind_verdict e wire r w x)) (sym refused) (inl refl)
  | inr (inr (m, d, refused, out)) ↦
      subst (λ x. WithinScope cr k (behind_verdict e wire r w x)) (sym refused) (inl refl)
]

-- A request to a pass-through endpoint that carries the key of an active record reaches an upstream only
-- for a model that the key's allowlist contains and with the key's daily limit not reached, where login
-- is required, the queries of the key's flag and of its record are both answered, and either the body
-- is JSON or nothing that decodes is left of it behind the form.
pub guarded-WithinScope :
    (e : Endpoint) (wire : Wire) (s : Settings) (cr : Credentials) (r : PassRequest) (body : Fields)
    (w : World) (key : String) (k : ApiKey)
    → w.config.settings ≡ some s
    → s.require_login ≡ true
    → bearer cr ≡ some key
    → cr.validates key ≡ true
    → cr.finds key ≡ true
    → find_key key cr.keys ≡ some k
    → k.is_active ≡ true
    → (r.is_json ≡ true) ⊎ (r.leftover ≡ none)
    → auth_body r ≡ some body
    → WithinScope cr k (guarded e wire cr r body w)
unfolding guarded
guarded-WithinScope e wire s cr r body w key k held login b flagged queried held_key active whole
      c =
    let model = string_at "model" body in
    subst (λ x. WithinScope cr k (behind_verdict e wire r w (verdict x cr w.now model))) (sym held)
      (behind_verdict-WithinScope e wire cr r body w key k (verdict (some s) cr w.now model) whole c
        (subst (Scoped cr key model k)
          (sym (key_verdict s cr w.now model key k login b flagged held_key active))
          (found-Scoped cr key model k queried held_key)))
