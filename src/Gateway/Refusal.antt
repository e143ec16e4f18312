-- ===== src/Gateway/Refusal.antt =====
-- What a caller who is refused gets, and what the request leaves behind.
use my_ai_router.Common.{
  ℕ, ◌≡◌, refl, ap, ◌∙◌, inl, inr, false, Bool-cases, some, String, drop, Message, is_empty,
}
use my_ai_router.Json.{Fields, string_at}
use my_ai_router.Live.{ActivityTracker}
use my_ai_router.Context.{
  Context, api_error, send, new_socket, add_step, write_error, new_context, begin_live_activity,
  finish_live_activity,
}
use my_ai_router.Pipeline.{World, Handler, Outcome, run}
use my_ai_router.Access.{Credentials, refuse, verdict, auth}
use my_ai_router.Observability.{observability, record_outcome, count_tokens, traces_off}
use my_ai_router.Observability.Answers.{Formats}
use my_ai_router.Gateway.{
  Services, Request, stages, is_stream_request, serve, handle_chat, handle_decoded,
}

-- The part of the World that a refused request leaves as it was.
abbrev pub SameRouting : World → World → Type 0
SameRouting x y =
    (x.health ≡ y.health)
    × (x.limiters ≡ y.limiters)
    × (x.balance_counter ≡ y.balance_counter)
    × (x.config ≡ y.config)
    × (x.now ≡ y.now)

auth_refuses :
    (cr : Credentials) (next : Handler) (c : Context) (w : World) (code : ℕ)
    (message details : Message)
    → verdict w.config.settings cr w.now (string_at "model" c.request_body)
      ≡ refuse code message details
    → c.response_written ≡ false
    → ((auth cr next c w).ctx.socket ≡ send code (api_error message) c.socket)
      × ((auth cr next c w).world ≡ w)
unfolding auth write_error add_step
auth_refuses cr next c w code message details e fresh = rw (auth, e, fresh) (refl, refl)

record_outcome-SameRouting :
    (f : Formats) (o : Outcome) → SameRouting (record_outcome f o).world o.world
unfolding record_outcome
record_outcome-SameRouting f o = elim (Bool-cases (traces_off o.world)) [
  | inl e ↦ rw e (refl, refl, refl, refl, refl)
  | inr e ↦ rw e (refl, refl, refl, refl, refl)
]

finish_socket :
    (c : Context) (live : ActivityTracker) (now : ℕ)
    → (finish_live_activity c live now).0.socket ≡ c.socket
unfolding finish_live_activity
finish_socket c live now = elim (Bool-cases (is_empty c.live_id)) [
  | inl e ↦ rw e refl
  | inr e ↦ elim (Bool-cases c.live_finished) [ inl f ↦ rw (e, f) refl | inr f ↦ rw (e, f) refl ]
]

serve_refused :
    (s : Services) (r : Request) (body : Fields) (w : World) (code : ℕ) (message details : Message)
    → verdict w.config.settings s.credentials w.now (string_at "model" body)
      ≡ refuse code message details
    → ((serve s r body w).0 ≡ send code (api_error message) new_socket)
      × SameRouting (serve s r body w).1 w
unfolding serve run observability begin_live_activity record_outcome count_tokens
serve_refused s r body w code message details refused =
    let fresh = new_context r.id body (is_stream_request body) w.now r.no_compress in
    let begun = begin_live_activity fresh (string_at "model" body) w.live w.now in
    let w' = record w { live = begun.1 } in
    let below = auth s.credentials (run (drop 2 (stages s r))) begun.0 w' in
    let o = record_outcome s.formats below in
    let (socket, world) =
      auth_refuses s.credentials (run (drop 2 (stages s r))) begun.0 w' code message details refused
        refl in
    let (health, limiters, turns, config, now) = record_outcome-SameRouting s.formats below in
    (
      finish_socket o.ctx o.world.live o.world.now ∙ socket,
      (
        health ∙ ap (λ x. x.health) world,
        limiters ∙ ap (λ x. x.limiters) world,
        turns ∙ ap (λ x. x.balance_counter) world,
        config ∙ ap (λ x. x.config) world,
        now ∙ ap (λ x. x.now) world,
      ),
    )

-- A caller whom `Auth` refuses gets that error and nothing else, whatever the upstreams are: no
-- account's health, no bucket, no turn of the balancing and no configuration is touched, and no time
-- is spent on a call.
pub refused_at_the_door :
    (s : Services) (r : Request) (text : String) (body : Fields) (w : World) (code : ℕ)
    (message details : Message)
    → r.body ≡ some text
    → s.formats.decode text ≡ some body
    → verdict w.config.settings s.credentials w.now (string_at "model" body)
      ≡ refuse code message details
    → ((handle_chat s r w).0 ≡ send code (api_error message) new_socket)
      × SameRouting (handle_chat s r w).1 w
unfolding handle_chat handle_decoded
refused_at_the_door s r text body w code message details has decodes refused =
    rw (handle_chat, has, decodes) (serve_refused s r body w code message details refused)
