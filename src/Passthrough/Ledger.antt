-- ===== src/Passthrough/Ledger.antt =====
-- What the pass-through endpoints record, and where they call.
use my_ai_router.Common.{
  ℕ, ◌≡◌, refl, sym, false, Option, none, some, List, [], ◌∷◌, ◌++◌, String, str_eq, is_empty,
  Bool-cases, Option-cases, inl, inr, All, any, ltb, map, arith, append-nil, if◌then◌else◌,
}
use my_ai_router.Json.{Fields, string_at}
use my_ai_router.Context.{Connection, Socket, new_socket}
use my_ai_router.Pipeline.{World, UsageEntry}
use my_ai_router.Access.{Credentials, Verdict, admit, refuse, verdict}
use my_ai_router.Passthrough.Made.{Resolved-cases}
use my_ai_router.Passthrough.{
  Wire, PassRequest, Relayed, UpstreamCall, Form, Reply, unreachable, broken, answered,
  resolve_passthrough_target, passthrough_base, url_for, base_urls, default_base_url_for,
}
use my_ai_router.Passthrough.Gate.{guarded, behind_verdict}
use my_ai_router.Passthrough.Relays.{
  Endpoint, embeddings, transcriptions, translations, handle, handle_embeddings, embed,
  relay_multipart, relay_form, call_embeddings, call_audio, relay, replied, charge,
  record_passthrough_usage, settle_embeddings, settle_audio, handler_body, handler_form,
  relayed_values, relayed_fields, usage_counts,
}

-- The entries that a request has added carry no caller's key.
abbrev pub Uncharged : World → World → Type 0
Uncharged before after =
    (added : List UsageEntry) × (after.usage ≡ before.usage ++ added)
    × All (λ u. u.api_key ≡ "") added

same-Uncharged : (w : World) → Uncharged w w
same-Uncharged w = ([], sym (append-nil w.usage), tt)

charge-Uncharged :
    (model : String) (c : Connection) (status : ℕ) (counts : Option (ℕ × ℕ)) (w : World)
    → Uncharged w (charge model c status counts w)
unfolding record_passthrough_usage
charge-Uncharged model c status none w = same-Uncharged w
charge-Uncharged model c status (some (prompt, completion)) w = elim (Bool-cases (ltb 0 prompt)) [
  | inl e ↦ rw e (_ ∷ [], refl, (refl, tt))
  | inr e ↦ rw e (same-Uncharged w)
]

Ledger : World → Relayed → Type 0
Ledger w out = Uncharged w out.world

replied-Ledger :
    (model : String) (call : UpstreamCall) (settle : ℕ → String → World → World) (s : Socket)
    (w : World) (reply : Reply)
    → ((status : ℕ) (answer : String) → Uncharged w (settle status answer w))
    → Ledger w (replied model call settle s w reply)
unfolding replied Ledger
replied-Ledger model call settle s w (unreachable e) settled = same-Uncharged w
replied-Ledger model call settle s w (broken e) settled = same-Uncharged w
replied-Ledger model call settle s w (answered status body) settled = settled status body

relay-Ledger :
    (wire : Wire) (model : String) (call : UpstreamCall) (settle : ℕ → String → World → World)
    (s : Socket) (w : World)
    → ((status : ℕ) (answer : String) → Uncharged w (settle status answer w))
    → Ledger w (relay wire model call settle s w)
unfolding relay Ledger
relay-Ledger wire model call settle s w settled = elim (Bool-cases (wire.can_build call.url)) [
  | inl e ↦ rw e (replied-Ledger model call settle s w (wire.exchange call) settled)
  | inr e ↦ rw e (same-Uncharged w)
]

call_embeddings-Ledger :
    (wire : Wire) (model : String) (body : Fields) (c : Connection) (upstream : String)
    (base : Option String) (s : Socket) (w : World)
    → Ledger w (call_embeddings wire model body c upstream base s w)
unfolding call_embeddings Ledger
call_embeddings-Ledger wire model body c upstream none s w = same-Uncharged w
call_embeddings-Ledger wire model body c upstream (some base) s w =
    relay-Ledger wire model _ (settle_embeddings wire upstream c) s w
      (λ status answer. charge-Uncharged upstream c status (usage_counts (wire.decode answer)) w)

call_audio-Ledger :
    (wire : Wire) (path model : String) (form : Form) (c : Connection) (upstream : String)
    (base : Option String) (s : Socket) (w : World)
    → Ledger w (call_audio wire path model form c upstream base s w)
unfolding call_audio Ledger
call_audio-Ledger wire path model form c upstream none s w = same-Uncharged w
call_audio-Ledger wire path model form c upstream (some base) s w =
    relay-Ledger wire model _ settle_audio s w (λ status answer. same-Uncharged w)

embed-Ledger :
    (wire : Wire) (body : Fields) (s : Socket) (w : World) → Ledger w (embed wire body s w)
unfolding embed Ledger
embed-Ledger wire body s w =
    let model = string_at "model" body in
    elim (Resolved-cases (resolve_passthrough_target w model)) [
      | inl (c, upstream, e) ↦
          rw (embed, e) (call_embeddings-Ledger wire model body c upstream (passthrough_base c) s w)
      | inr (code, message, e) ↦ rw (embed, e) (same-Uncharged w)
    ]

relay_form-Ledger :
    (wire : Wire) (path model : String) (form : Form) (s : Socket) (w : World)
    → Ledger w (relay_form wire path model form s w)
unfolding relay_form Ledger
relay_form-Ledger wire path model form s w =
    elim (Resolved-cases (resolve_passthrough_target w model)) [
      | inl (c, upstream, e) ↦
          rw (relay_form, e)
            (call_audio-Ledger wire path model form c upstream (passthrough_base c) s w)
      | inr (code, message, e) ↦ rw (relay_form, e) (same-Uncharged w)
    ]

handle_embeddings-Ledger :
    (wire : Wire) (r : PassRequest) (s : Socket) (w : World)
    → Ledger w (handle_embeddings wire r s w)
unfolding handle_embeddings Ledger
handle_embeddings-Ledger wire r s w = elim (Bool-cases r.is_post) [
  | inr e ↦ rw (handle_embeddings, e) (same-Uncharged w)
  | inl post ↦ elim (Bool-cases r.readable) [
    | inr e ↦ rw (handle_embeddings, post, e) (same-Uncharged w)
    | inl readable ↦ elim (Option-cases (handler_body r)) [
      | inl e ↦ rw (handle_embeddings, post, readable, e) (same-Uncharged w)
      | inr (body, e) ↦ rw (handle_embeddings, post, readable, e) (embed-Ledger wire body s w)
    ]
  ]
]

relay_multipart-Ledger :
    (wire : Wire) (path : String) (r : PassRequest) (s : Socket) (w : World)
    → Ledger w (relay_multipart wire path r s w)
unfolding relay_multipart Ledger
relay_multipart-Ledger wire path r s w = elim (Bool-cases r.is_post) [
  | inr e ↦ rw (relay_multipart, e) (same-Uncharged w)
  | inl post ↦ elim (Option-cases (handler_form r)) [
    | inl e ↦ rw (relay_multipart, post, e) (same-Uncharged w)
    | inr (form, e) ↦
        rw (relay_multipart, post, e) (relay_form-Ledger wire path r.form_model form s w)
  ]
]

behind_verdict-Ledger :
    (e : Endpoint) (wire : Wire) (r : PassRequest) (w : World) (v : Verdict)
    → Ledger w (behind_verdict e wire r w v)
unfolding handle Ledger
behind_verdict-Ledger embeddings wire r w (admit user details) =
    handle_embeddings-Ledger wire r new_socket w
behind_verdict-Ledger transcriptions wire r w (admit user details) =
    relay_multipart-Ledger wire "/audio/transcriptions" r new_socket w
behind_verdict-Ledger translations wire r w (admit user details) =
    relay_multipart-Ledger wire "/audio/translations" r new_socket w
behind_verdict-Ledger e wire r w (refuse code message details) = same-Uncharged w

-- Whatever a pass-through request does, and whoever sends it, the usage entries that it adds carry no
-- key, so that nothing of it counts against the daily limit of the key that was used.
pub guarded-Uncharged :
    (e : Endpoint) (wire : Wire) (cr : Credentials) (r : PassRequest) (body : Fields) (w : World)
    → Uncharged w (guarded e wire cr r body w).world
unfolding guarded Ledger
guarded-Uncharged e wire cr r body w =
    behind_verdict-Ledger e wire r w (verdict w.config.settings cr w.now (string_at "model" body))

-- The form as pairs, each value under its key, with those of "model" replaced.
abbrev pub pairs : String → List String → List (String × String)
pairs key [] = []
pairs key (v ∷ rest) = (key, v) ∷ pairs key rest

abbrev pub flat : List (String × List String) → List (String × String)
flat [] = []
flat ((key, values) ∷ rest) = pairs key values ++ flat rest

abbrev pub renamed : String → String × String → String × String
renamed upstream (key, v) = (key, if str_eq key "model" then upstream else v)

relayed_values-pairs :
    (upstream key : String) (values : List String)
    → relayed_values upstream key values ≡ map (renamed upstream) (pairs key values)
unfolding relayed_values
relayed_values-pairs upstream key [] = refl
relayed_values-pairs upstream key (v ∷ rest) = rw (relayed_values-pairs upstream key rest) refl

map-append : {A B : Type 0} (f : A → B) (xs ys : List A) → map f (xs ++ ys) ≡ map f xs ++ map f ys
map-append f [] ys = refl
map-append f (x ∷ xs) ys = rw (map-append f xs ys) refl

-- An audio request reaches the upstream with its form as it was sent, in its order, except that each
-- value of "model" is the upstream's name for the model.
pub relayed_fields-flat :
    (upstream : String) (fields : List (String × List String))
    → relayed_fields upstream fields ≡ map (renamed upstream) (flat fields)
unfolding relayed_fields
relayed_fields-flat upstream [] = refl
relayed_fields-flat upstream ((key, values) ∷ rest) =
    rw
      (
        relayed_values-pairs upstream key values,
        relayed_fields-flat upstream rest,
        map-append (renamed upstream) (pairs key values) (flat rest),
      )
      refl

url_for-named :
    (provider : String) (urls : List (String × String))
    → any (λ u. is_empty u.1) urls ≡ false
    → is_empty (url_for provider urls) ≡ false
unfolding url_for
url_for-named provider [] h = refl
url_for-named provider ((p, url) ∷ rest) h = ground (arith, h, url_for-named provider rest)

default_named : (provider : String) → is_empty (default_base_url_for provider) ≡ false
default_named provider = url_for-named provider base_urls refl

-- Every connection has a base to call: the answer for one without is never sent.
pub passthrough_base-some : (c : Connection) → (base : String) × (passthrough_base c ≡ some base)
unfolding passthrough_base
passthrough_base-some c = elim (Bool-cases (is_empty (string_at "baseUrl" c.settings))) [
  | inl e ↦ rw (e, default_named c.provider) (_, refl)
  | inr e ↦ rw (e, e) (_, refl)
]
