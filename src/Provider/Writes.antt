-- ===== src/Provider/Writes.antt =====
-- When the middleware that calls the upstream writes to the client.
use my_ai_router.Common.{
  ℕ, ◌≡◌, ◌⊎◌, refl, ap, sym, subst, ◌∙◌, inl, inr, true, false, Bool-cases, Option, none, some,
  Option-cases, String, ltb, ◌-◌, ◌/◌,
}
use my_ai_router.Context.{Context, Connection, add_step, raw, send}
use my_ai_router.Live.{ActivityTracker}
use my_ai_router.Live.Sessions.{mark_stream}
use my_ai_router.Pipeline.{World, Outcome, return}
use my_ai_router.Retry.Attempt.{is_success}
use my_ai_router.Provider.{
  Execution, Adapters, adapter_for, take_tokens, close_stream, relay_stream, relay_body,
  relay_answer, succeed, executed, call_adapter, provider, stream_format,
}
use my_ai_router.Provider.Events.{Tools, Relay, handle_stream}

-- The body of an answer has gone out on the socket, or what the relay of its stream sends, and the
-- status is the upstream's.
abbrev pub Delivered : Tools → Execution → ActivityTracker → ℕ → Context → Context → Type 0
Delivered tools res live now c d =
    (d.response_written ≡ true)
    × (d.response_code ≡ c.response_code)
    × (((res.is_stream ≡ false) × (d.socket ≡ send res.response_code (raw res.body) c.socket))
        ⊎ ((res.is_stream ≡ true)
            × (d.socket
                ≡ (handle_stream tools (stream_format c.provider) c.live_id c.started res.stream
                    c.socket (mark_stream live c.live_id true now) now).0.socket)))

close_stream-socket :
    (tools : Tools) (r : Relay) (error : Option String) (c : Context)
    → ((close_stream tools r error c).response_written ≡ c.response_written)
      × ((close_stream tools r error c).response_code ≡ c.response_code)
      × ((close_stream tools r error c).socket ≡ c.socket)
unfolding close_stream take_tokens
close_stream-socket tools r none c = (refl, refl, refl)
close_stream-socket tools r (some error) c = (refl, refl, refl)

relay_body-Delivered :
    (tools : Tools) (res : Execution) (latency now : ℕ) (live : ActivityTracker) (c : Context)
    → res.is_stream ≡ false
    → Delivered tools res live now c (relay_body tools res latency c)
unfolding relay_body take_tokens
relay_body-Delivered tools res latency now live c whole =
    elim (Option-cases (tools.codec.decode res.body)) [
      | inl e ↦ rw (relay_body, e) (refl, refl, inl (whole, refl))
      | inr (m, e) ↦ rw (relay_body, e) (refl, refl, inl (whole, refl))
    ]

relay_stream-Delivered :
    (tools : Tools) (res : Execution) (c : Context) (w : World)
    → res.is_stream ≡ true
    → Delivered tools res w.live w.now c
        (relay_stream tools res c (record w { live = mark_stream w.live c.live_id true w.now })).0
unfolding relay_stream
relay_stream-Delivered tools res c w flows =
    let out =
      handle_stream tools (stream_format c.provider) c.live_id c.started res.stream c.socket
        (mark_stream w.live c.live_id true w.now) w.now in
    let (written, code, socket) =
      close_stream-socket tools out.0 out.1
        (record c { socket = out.0.socket; response_written = true }) in
    (written, code, inr (flows, socket))

relay_answer-stream :
    (tools : Tools) (res : Execution) (latency : ℕ) (c : Context) (w : World)
    → res.is_stream ≡ true
    → relay_answer tools res latency c w
      ≡ relay_stream tools res c (record w { live = mark_stream w.live c.live_id true w.now })
unfolding relay_answer
relay_answer-stream tools res latency c w flows = rw flows refl

relay_answer-body :
    (tools : Tools) (res : Execution) (latency : ℕ) (c : Context) (w : World)
    → res.is_stream ≡ false
    → (relay_answer tools res latency c w).0 ≡ relay_body tools res latency c
unfolding relay_answer
relay_answer-body tools res latency c w whole = rw whole refl

relay_answer-Delivered :
    (tools : Tools) (res : Execution) (latency : ℕ) (c : Context) (w : World)
    → Delivered tools res w.live w.now c (relay_answer tools res latency c w).0
relay_answer-Delivered tools res latency c w = elim (Bool-cases res.is_stream) [
  | inl flows ↦
      subst (λ d. Delivered tools res w.live w.now c d.0)
        (sym (relay_answer-stream tools res latency c w flows))
        (relay_stream-Delivered tools res c w flows)
  | inr whole ↦
      subst (Delivered tools res w.live w.now c)
        (sym (relay_answer-body tools res latency c w whole))
        (relay_body-Delivered tools res latency w.now w.live c whole)
]

-- An answer without an error that counts as a success and has gone out on the socket.
abbrev pub WentOut : Tools → Execution → ActivityTracker → ℕ → Context → Outcome → Type 0
WentOut tools res live now c o =
    (res.error ≡ none)
    × (is_success o.error o.ctx.response_code ≡ true)
    × (o.ctx.response_code ≡ res.response_code)
    × (o.ctx.response_written ≡ true)
    × (((res.is_stream ≡ false) × (o.ctx.socket ≡ send res.response_code (raw res.body) c.socket))
        ⊎ ((res.is_stream ≡ true)
            × (o.ctx.socket
                ≡ (handle_stream tools (stream_format c.provider) c.live_id c.started res.stream
                    c.socket (mark_stream live c.live_id true now) now).0.socket)))

-- A failure that has left the client's socket to the next attempt.
abbrev pub LeftOpen : Context → Outcome → Type 0
LeftOpen c o =
    (is_success o.error o.ctx.response_code ≡ false)
    × (o.ctx.socket ≡ c.socket)
    × (o.ctx.response_written ≡ c.response_written)

-- The two ends of an attempt: it has failed and left the client's socket to the next one, or the
-- adapter's answer is no error and has gone out on the socket.
abbrev pub Settled : Tools → Adapters → Context → World → Outcome → Type 0
Settled tools adapters c w o =
    LeftOpen c o
    ⊎ ((connection : Connection) × (res : Execution) × (c.connection ≡ some connection)
        × (res
            ≡ (adapter_for adapters c.provider).execute c.deadlines connection c.request_body w.now)
        × WentOut tools res w.live res.finished c o)

executed_ends :
    (tools : Tools) (res : Execution) (started : ℕ) (c : Context) (w : World)
    → LeftOpen c (executed tools res started return c w)
      ⊎ WentOut tools res w.live w.now c (executed tools res started return c w)
unfolding executed succeed add_step
executed_ends tools res started c w = elim (Option-cases res.error) [
  | inr (error, e) ↦ rw (executed, e) (inl (refl, refl, refl))
  | inl e ↦
      let coded = record c { response_code = res.response_code; is_stream = res.is_stream } in
      let ms = (w.now - started) / 1_000_000 in
      let (written, code, sent) = relay_answer-Delivered tools res ms coded w in
      elim (Bool-cases (ltb res.response_code 400)) [
        | inl low ↦
            rw (executed, e, low) (inr (refl, ap (λ x. ltb x 400) code ∙ low, code, written, sent))
        | inr high ↦ rw (executed, e, high) (inl (high, refl, refl))
      ]
]

call_adapter-Settled :
    (tools : Tools) (adapters : Adapters) (c : Context) (w : World) (connection : Connection)
    → c.connection ≡ some connection
    → Settled tools adapters c w (call_adapter tools adapters connection return c w)
unfolding call_adapter
call_adapter-Settled tools adapters c w connection e =
    let res =
      (adapter_for adapters c.provider).execute c.deadlines connection c.request_body w.now in
    elim (executed_ends tools res w.now c (record w { now = res.finished })) [
      | inl left ↦ inl left
      | inr went ↦ inr (connection, res, e, refl, went)
    ]

provider_called :
    (tools : Tools) (adapters : Adapters) (c : Context) (w : World) (connection : Connection)
    → c.connection ≡ some connection
    → provider tools adapters return c w ≡ call_adapter tools adapters connection return c w
unfolding provider
provider_called tools adapters c w connection e = rw e refl

-- An attempt that counts as a success has an account, and its adapter has answered without an error;
-- the status is the adapter's, and what has gone out on the client's socket is that answer: its whole
-- body under its status, or what the relay of its stream sends. Where the attempt fails, for want of
-- an account, in the call or with an error status, the client's socket is as it was.
pub provider-Settled :
    (tools : Tools) (adapters : Adapters) (c : Context) (w : World)
    → Settled tools adapters c w (provider tools adapters return c w)
unfolding provider add_step
provider-Settled tools adapters c w = elim (Option-cases c.connection) [
  | inl e ↦ rw (provider, e) (inl (refl, refl, refl))
  | inr (connection, e) ↦
      subst (Settled tools adapters c w) (sym (provider_called tools adapters c w connection e))
        (call_adapter-Settled tools adapters c w connection e)
]
