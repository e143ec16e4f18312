-- ===== src/Retry/Relay.antt =====
-- What the client receives from the two loops.
use my_ai_router.Common.{◌≡◌, true, false, is_empty}
use my_ai_router.Context.{Context, Target}
use my_ai_router.Context.Writes.{write_upstream_error_drops}
use my_ai_router.Pipeline.{World, Outcome, Handler}
use my_ai_router.Retry.Attempt.{start_attempt, is_success}
use my_ai_router.Retry.Single.{single, close_single}

-- What the only target of a route answers, as `single` asks it.
abbrev pub answer_of : Handler → Target → Context → World → Outcome
answer_of next t c w = let (c', w') = start_attempt t c.request_body 1 c w in next c' w'

-- A failure of the only target that brings no body, as every failure of the transport does, leaves
-- the client without any answer: nothing is written to its socket.
pub single_drops :
    (next : Handler) (t : Target) (c : Context) (w : World)
    → is_success (answer_of next t c w).error (answer_of next t c w).ctx.response_code ≡ false
    → (answer_of next t c w).ctx.response_written ≡ false
    → is_empty (answer_of next t c w).ctx.response_body ≡ true
    → (single next t c w).ctx.socket ≡ (answer_of next t c w).ctx.socket
unfolding single close_single
single_drops next t c w failed fresh body = rw failed (write_upstream_error_drops _ _ fresh body).0
