-- ===== src/Retry/Single.antt =====
-- internal/gateway/middleware/retry.go, the route with one target.
use my_ai_router.Common.{
  ℕ, Option, none, some, [], ◌∷◌, String, Message, lit, num, note, if◌then◌else◌,
}
use my_ai_router.Context.{Context, Target, write_upstream_error}
use my_ai_router.Pipeline.{World, Outcome, Handler, return}
use my_ai_router.Retry.Attempt.{
  Tried, start_attempt, finish_attempt, is_success, attempt_record, add_attempt, note_success,
  note_failure,
}

unfoldable pub single_error : Option String → ℕ → Message
single_error none code = lit "HTTP " ∷ num code ∷ []
single_error (some e) code = note e

unfoldable pub close_single : Target → Tried → Outcome
unfolding single_error
close_single t tried =
    let code = tried.ctx.response_code in
    let succeeded =
      add_attempt (tried.ctx) (attempt_record 1 t "success" code (tried.duration_ms) []) in
    let failed =
      add_attempt (tried.ctx)
        (attempt_record 1 t "failed" code (tried.duration_ms) (single_error (tried.error) code)) in
    if is_success (tried.error) code
    then return succeeded (note_success t tried)
    else return (write_upstream_error failed code) (note_failure t tried)

unfoldable pub single : Handler → Target → Context → World → Outcome
unfolding close_single start_attempt finish_attempt
single next t c w =
    let (c', w') = start_attempt t c.request_body 1 c w in
    close_single t (finish_attempt w.now (next c' w'))
