-- ===== src/Retry/Child.antt =====
-- internal/gateway/middleware/retry.go: one child attempt of a concurrent strategy, which writes to a
-- recorder in place of the client's socket. A recorder keeps a status line and the pieces of body in
-- the same way as the socket does. A panic inside a child is outside the model.
use my_ai_router.Common.{
  ℕ, ◌-◌, ◌/◌, Bool, none, some, List, [], ◌∷◌, ◌++◌, String, Message, if◌then◌else◌, ltb, lit, num,
  ◌+◌, length,
}
use my_ai_router.Json.{Fields}
use my_ai_router.Health.{record_success, record_failure}
use my_ai_router.Live.Sessions.{attempt_started, attempt_finished}
use my_ai_router.Context.{
  Context, Metadata, Target, TargetAttempt, TraceStep, Socket, new_socket, write_header,
  clone_for_target, add_step, write_upstream_error,
}
use my_ai_router.Pipeline.{World, Outcome, Handler}
use my_ai_router.Retry.Attempt.{is_success}

-- `replayResponse`: the recorded status, or 200 where there is none, and the recorded body.
unfoldable pub replay : Socket → Socket → Socket
replay recorded s =
    let code : ℕ = elim recorded.status [ none ↦ 200 | some code ↦ code ] in
    let opened = write_header code s in record opened { chunks = opened.chunks ++ recorded.chunks }

-- `targetResult`
pub record Report : Type 0 where
  pub target : Target
  pub response_code : ℕ
  pub response_body : String
  pub recorded : Socket
  pub metadata : Metadata
  pub attempts : List TargetAttempt
  pub prompt_tokens : ℕ
  pub completion_tokens : ℕ
  pub cached_tokens : ℕ
  pub ttfb_ms : ℕ
  pub steps : List TraceStep

-- A child that has come back: its report, whether it succeeded, and the state behind it.
pub record Child : Type 0 where
  pub report : Report
  pub ok : Bool
  pub world : World

abbrev pub report_of : Target → Context → Report
report_of t c = record {
  target = t;
  response_code = c.response_code;
  response_body = c.response_body;
  recorded = c.socket;
  metadata = c.metadata;
  attempts = c.target_attempts;
  prompt_tokens = c.prompt_tokens;
  completion_tokens = c.completion_tokens;
  cached_tokens = c.cached_tokens;
  ttfb_ms = c.ttfb_ms;
  steps = c.steps;
}

-- The request of a child: a clone of the parent's under its own deadlines, on a new recorder.
unfoldable pub child_request : Context → List ℕ → Fields → Target → ℕ → Context
child_request c deadlines body t now =
    record (clone_for_target c deadlines t.connection t.model_name t.provider body now) {
      socket = new_socket;
    }

unfoldable pub note_child : Target → ℕ → Outcome → World
note_child t started o =
    let ms = (o.world.now - started) / 1_000_000 in
    record o.world {
      live = attempt_finished o.world.live o.ctx.live_id;
      health =
          if is_success o.error o.ctx.response_code
          then record_success o.world.health t.connection.id ms o.ctx.ttfb_ms
          else record_failure o.world.health t.connection.id o.world.now;
    }

-- `runChildWithRecorder`
unfoldable pub run_child : Handler → Context → List ℕ → Fields → Target → World → Child
unfolding child_request note_child
run_child next c deadlines body t w =
    let o =
      next (child_request c deadlines body t w.now)
        (record w { live = attempt_started w.live c.live_id t.provider t.model_name 0 w.now }) in
    record {
      report = report_of t o.ctx;
      ok = is_success o.error o.ctx.response_code;
      world = note_child t w.now o;
    }

-- What a promoted child leaves in the parent request, in front of the answer itself.
unfoldable pub promote : Report → Context → Context
promote r c = record c {
  connection = some r.target.connection;
  model = r.target.model_name;
  provider = r.target.provider;
  response_code = r.response_code;
  response_body = r.response_body;
  prompt_tokens = r.prompt_tokens;
  completion_tokens = r.completion_tokens;
  cached_tokens = r.cached_tokens;
  ttfb_ms = r.ttfb_ms;
  steps = c.steps ++ r.steps;
}

-- The keys "prepareResult" and "compressionPct" of the child's metadata, where it has them.
unfoldable pub merge_metadata : Metadata → Metadata → Metadata
merge_metadata child parent = record parent {
  prepare_result = elim child.prepare_result [ none ↦ parent.prepare_result | some v ↦ some v ];
  compression_pct = elim child.compression_pct [ none ↦ parent.compression_pct | some v ↦ some v ];
}

-- `applyWinner`. The response is sent, but `ResponseWritten` is left as it is.
unfoldable pub apply_winner : Context → Report → Message → String → Context
unfolding promote merge_metadata replay
apply_winner c r message step =
    let promoted = promote r c in
    add_step
      (record promoted {
        metadata = merge_metadata r.metadata promoted.metadata;
        socket = replay r.recorded promoted.socket;
      })
      step "success" message

abbrev all_failed : String → Target → ℕ → Message
all_failed step t code =
    lit "All "
    ∷ lit step
    ∷ lit " models failed; last error from "
    ∷ lit t.model_name
    ∷ lit " (HTTP "
    ∷ num code
    ∷ lit ")"
    ∷ []

-- `applyFailure`
unfoldable pub apply_failure : Context → Report → String → Context
unfolding promote
apply_failure c r step =
    let promoted = promote r c in
    let code = if ltb r.response_code 400 then 502 else r.response_code in
    let told =
      write_upstream_error
        (record promoted {
          response_code = code;
          fallback_count = promoted.fallback_count + length promoted.target_attempts;
        })
        code in
    add_step told step "failed" (all_failed step r.target told.response_code)
