-- ===== src/Passthrough/Made.antt =====
-- A call of an upstream is made for the model that the handler reads.
use my_ai_router.Common.{
  ◌≡◌, ◌⊎◌, refl, subst, false, Option, none, some, String, is_empty, arith, Bool-cases, inl, inr,
  ℕ, [], ◌∷◌, Message, note, if◌then◌else◌,
}
use my_ai_router.Json.{Fields, string_at}
use my_ai_router.Context.{Socket, Connection}
use my_ai_router.Pipeline.{World}
use my_ai_router.Routing.Route.{resolve_targets}
use my_ai_router.Passthrough.{
  Wire, Relayed, UpstreamCall, resolve_passthrough_target, passthrough_base, Reply, unreachable,
  broken, answered, found, missing, Resolved, Form, first_target,
}
use my_ai_router.Passthrough.Relays.{
  embed, relay_form, call_embeddings, call_audio, relay, replied, settle_embeddings, settle_audio,
}

-- A call that has been made was made for the model, which is not empty.
unfoldable pub MadeFor : String → Relayed → Type 0
MadeFor model out =
    (out.called ≡ none)
    ⊎ ((call : UpstreamCall) × (out.called ≡ some (model, call)) × (is_empty model ≡ false))

replied-MadeFor :
    (model : String) (call : UpstreamCall) (settle : ℕ → String → World → World) (s : Socket)
    (w : World) (reply : Reply)
    → is_empty model ≡ false
    → MadeFor model (replied model call settle s w reply)
unfolding replied MadeFor
replied-MadeFor model call settle s w (unreachable e) named = inr (call, refl, named)
replied-MadeFor model call settle s w (broken e) named = inr (call, refl, named)
replied-MadeFor model call settle s w (answered status body) named = inr (call, refl, named)

relay-MadeFor :
    (wire : Wire) (model : String) (call : UpstreamCall) (settle : ℕ → String → World → World)
    (s : Socket) (w : World)
    → is_empty model ≡ false
    → MadeFor model (relay wire model call settle s w)
unfolding relay MadeFor
relay-MadeFor wire model call settle s w named = elim (Bool-cases (wire.can_build call.url)) [
  | inl e ↦ rw e (replied-MadeFor model call settle s w (wire.exchange call) named)
  | inr e ↦ rw e (inl refl)
]

call_embeddings-MadeFor :
    (wire : Wire) (model : String) (body : Fields) (c : Connection) (upstream : String)
    (base : Option String) (s : Socket) (w : World)
    → is_empty model ≡ false
    → MadeFor model (call_embeddings wire model body c upstream base s w)
unfolding call_embeddings MadeFor
call_embeddings-MadeFor wire model body c upstream none s w named = inl refl
call_embeddings-MadeFor wire model body c upstream (some base) s w named =
    relay-MadeFor wire model _ (settle_embeddings wire upstream c) s w named

call_audio-MadeFor :
    (wire : Wire) (path model : String) (form : Form) (c : Connection) (upstream : String)
    (base : Option String) (s : Socket) (w : World)
    → is_empty model ≡ false
    → MadeFor model (call_audio wire path model form c upstream base s w)
unfolding call_audio MadeFor
call_audio-MadeFor wire path model form c upstream none s w named = inl refl
call_audio-MadeFor wire path model form c upstream (some base) s w named =
    relay-MadeFor wire model _ settle_audio s w named

missing≢found :
    (code : ℕ) (message : Message) (c : Connection) (upstream : String)
    → missing code message ≡ found c upstream
    → ⊥
missing≢found code message c upstream e = ground (arith, e)

pub some≢none : (m : Fields) → some m ≡ none → ⊥
some≢none m e = ground (arith, e)

-- No target is found for an empty name.
found_named :
    (w : World) (model : String) (c : Connection) (upstream : String)
    → resolve_passthrough_target w model ≡ found c upstream
    → is_empty model ≡ false
unfolding resolve_passthrough_target
found_named w model c upstream e = elim (Bool-cases (is_empty model)) [
  | inl none_named ↦
      elim (missing≢found _ _ _ _ (
        subst
          (λ b.
            (if b
              then missing 400 (note "Missing model parameter")
              else first_target model (resolve_targets w (model ∷ [])))
            ≡ found c upstream)
          none_named e)) [ ]
  | inr named ↦ named
]

pub Resolved-cases :
    (r : Resolved)
    → ((c : Connection) × (upstream : String) × (r ≡ found c upstream))
      ⊎ ((code : ℕ) × (message : Message) × (r ≡ missing code message))
Resolved-cases (found c upstream) = inl (c, upstream, refl)
Resolved-cases (missing code message) = inr (code, message, refl)

pub embed-MadeFor :
    (wire : Wire) (body : Fields) (s : Socket) (w : World)
    → MadeFor (string_at "model" body) (embed wire body s w)
unfolding embed MadeFor
embed-MadeFor wire body s w =
    elim (Resolved-cases (resolve_passthrough_target w (string_at "model" body))) [
      | inl (c, upstream, e) ↦
          rw (embed, e)
            (call_embeddings-MadeFor wire (string_at "model" body) body c upstream
              (passthrough_base c) s w (found_named w (string_at "model" body) c upstream e))
      | inr (code, message, e) ↦ rw (embed, e) (inl refl)
    ]

pub relay_form-MadeFor :
    (wire : Wire) (path model : String) (form : Form) (s : Socket) (w : World)
    → MadeFor model (relay_form wire path model form s w)
unfolding relay_form MadeFor
relay_form-MadeFor wire path model form s w =
    elim (Resolved-cases (resolve_passthrough_target w model)) [
      | inl (c, upstream, e) ↦
          rw (relay_form, e)
            (call_audio-MadeFor wire path model form c upstream (passthrough_base c) s w
              (found_named w model c upstream e))
      | inr (code, message, e) ↦ rw (relay_form, e) (inl refl)
    ]
