-- ===== src/Retry/Attempt.antt =====
-- internal/gateway/middleware/retry.go: one attempt at one target, and the test of its answer.
use my_ai_router.Common.{
  ℕ, ◌-◌, ◌/◌, Bool, true, false, ◌||◌, Option, none, some, [], ◌∷◌, ◌++◌, String, str_eq, len,
  Message, lit, num, note, ltb, if◌then◌else◌, is_empty, contains, TextOps,
}
use my_ai_router.Json.{
  Fields, Items, cons, nil, string, member, set_member, as_string, as_object, as_array,
}
use my_ai_router.Health.{record_success, record_failure}
use my_ai_router.Live.Sessions.{attempt_started, attempt_finished}
use my_ai_router.Context.{Context, Target, TargetAttempt}
use my_ai_router.Pipeline.{World, Outcome, Handler}

-- `ctx.RequestBody["model"] = name`, over a clone of the body. Values are immutable here, so the
-- clone is the body itself.
abbrev pub with_model : String → Fields → Fields
with_model name body = set_member "model" (string name) body

-- What every attempt does before it calls `next`. The attempt number is counted from 1.
unfoldable pub start_attempt : Target → Fields → ℕ → Context → World → Context × World
start_attempt t body number c w = (
  record c {
    connection = some t.connection;
    model = t.model_name;
    provider = t.provider;
    request_body = with_model t.model_name body;
  },
  record w { live = attempt_started w.live c.live_id t.provider t.model_name number w.now },
)

-- An attempt that has come back, with the time that it took.
pub record Tried : Type 0 where
  pub error : Option String
  pub ctx : Context
  pub world : World
  pub duration_ms : ℕ

unfoldable pub finish_attempt : ℕ → Outcome → Tried
finish_attempt started o = record {
  error = o.error;
  ctx = o.ctx;
  world = record o.world { live = attempt_finished o.world.live o.ctx.live_id };
  duration_ms = (o.world.now - started) / 1_000_000;
}

-- The attempt of the sequential loop: a deadline is laid over the request's own and taken off.
unfoldable pub attempt : Handler → Target → Fields → ℕ → ℕ → Context → World → Tried
unfolding start_attempt finish_attempt
attempt next t body number timeout c w =
    let (c', w') = start_attempt t body number c w in
    let tried = finish_attempt w.now (next (record c' { deadlines = timeout ∷ c.deadlines }) w') in
    record tried { ctx = record (tried.ctx) { deadlines = c.deadlines } }

-- `err == nil && ctx.ResponseCode < 400`
abbrev pub is_success : Option String → ℕ → Bool
is_success none code = ltb code 400
is_success (some e) code = false

unfoldable pub failure_text : Option String → ℕ → Message
failure_text none code = lit "Upstream HTTP " ∷ num code ∷ []
failure_text (some e) code = note e

abbrev pub attempt_record : ℕ → Target → String → ℕ → ℕ → Message → TargetAttempt
attempt_record number t status code duration error = record {
  index = number;
  provider = t.provider;
  model = t.model_name;
  connection_id = t.connection.id;
  status = status;
  response_code = code;
  duration_ms = duration;
  error = error;
}

abbrev pub add_attempt : Context → TargetAttempt → Context
add_attempt c a = record c { target_attempts = c.target_attempts ++ a ∷ [] }

abbrev pub note_success : Target → Tried → World
note_success t tried = record (tried.world) {
  health =
      record_success (tried.world.health) (t.connection.id) (tried.duration_ms) (tried.ctx.ttfb_ms);
}

abbrev pub note_failure : Target → Tried → World
note_failure t tried = record (tried.world) {
  health = record_failure (tried.world.health) (t.connection.id) (tried.world.now);
}

-- `isLowConfidence`, behind the decoding of the body. The JSON decoder is an argument.
unfoldable pub poor_text : TextOps → String → Bool
poor_text ops content =
    let trimmed = ops.trim_space content in
    ltb (len trimmed) 10 || contains (ops.to_lower trimmed) "i cannot fulfill"

unfoldable pub poor_message : TextOps → Option Fields → Bool
unfolding poor_text
poor_message ops none = false
poor_message ops (some m) = elim (as_string (member "content" m)) [
  | none ↦ false
  | some content ↦ poor_text ops content
]

unfoldable pub poor_choice : TextOps → Option Fields → Bool
unfolding poor_message
poor_choice ops none = false
poor_choice ops (some choice) = elim (as_string (member "finish_reason" choice)) [
  | none ↦ poor_message ops (as_object (member "message" choice))
  | some reason ↦
      if str_eq reason "length"
      then true
      else poor_message ops (as_object (member "message" choice))
]

unfoldable pub poor_response : TextOps → Option Items → Bool
unfolding poor_choice
poor_response ops none = false
poor_response ops (some nil) = false
poor_response ops (some (cons choice rest)) = poor_choice ops (as_object (some choice))

unfoldable pub is_low_confidence : TextOps → (String → Option Fields) → String → Bool
unfolding poor_response
is_low_confidence ops decode body = if is_empty body then true else elim (decode body) [
  | none ↦ false
  | some response ↦ poor_response ops (as_array (member "choices" response))
]
