-- ===== src/Retry/Sequential.antt =====
-- internal/gateway/middleware/retry.go, the loop of `Retry` over the targets of a route.
use my_ai_router.Common.{
  ℕ, suc, ◌+◌, Bool, true, false, ◌&&◌, not, Option, none, some, List, [], ◌∷◌, ◌++◌, String,
  str_eq, Message, lit, num, note, ltb, leb, if◌then◌else◌,
}
use my_ai_router.Json.{Fields}
use my_ai_router.Policy.{
  AttemptPolicy, ErrorClass, retryable, account_failover, terminal, classify_with_policy,
  attempt_timeout, final_timeout, max_fallback_count,
}
use my_ai_router.Context.{
  Context, Target, TargetAttempt, add_step, write_error, write_upstream_error,
}
use my_ai_router.Pipeline.{World, Outcome, Handler, return}
use my_ai_router.Retry.Attempt.{
  Tried, attempt, is_success, failure_text, attempt_record, add_attempt, note_success, note_failure,
}

-- What stays fixed over the loop. `low` is the test of a progressive route for a poor answer.
pub record Route : Type 0 where
  pub policy : AttemptPolicy
  pub kind : String
  pub body : Fields
  pub next : Handler
  pub low : String → Bool

-- The end of one round: the loop returns, or goes on with the last error and the last status.
pub data Round : Type 0 where
  stop : Context → World → Round
  advance : Option Message → ℕ → Context → World → Round

abbrev pub is_last : List Target → Bool
is_last [] = true
is_last (t ∷ ts) = false

unfoldable pub skipped : ℕ → List Target → List TargetAttempt
skipped number [] = []
skipped number (t ∷ ts) = attempt_record number t "skipped" 0 0 [] ∷ skipped (suc number) ts

unfoldable pub on_success : ℕ → Target → List Target → Tried → Round
on_success number t rest tried =
    let c =
      add_attempt (tried.ctx)
        (attempt_record number t "success" (tried.ctx.response_code) (tried.duration_ms) []) in
    let all = record c { target_attempts = c.target_attempts ++ skipped (suc number) rest } in
    stop
      (add_step all "Routing Engine" "success" (
        lit "Attempt "
        ∷ num number
        ∷ lit " succeeded with "
        ∷ lit t.model_name
        ∷ lit " (status "
        ∷ num all.response_code
        ∷ lit ")"
        ∷ []))
      (note_success t tried)

unfoldable pub on_low_confidence : ℕ → Target → Target → Tried → Option Message → ℕ → Round
on_low_confidence number t upcoming tried last_err last_status =
    let c = add_attempt (tried.ctx) (
      attempt_record number t "failed" (tried.ctx.response_code) (tried.duration_ms)
        (note "Low confidence output")) in
    let told = add_step c "Progressive Routing" "info" (
      lit "Low confidence output on "
      ∷ lit t.model_name
      ∷ lit ", escalating to "
      ∷ lit upcoming.model_name
      ∷ []) in
    advance last_err last_status (record told { fallback_count = told.fallback_count + 1 })
      (note_failure t tried)

-- The bookkeeping of a failed attempt, in front of every decision.
unfoldable pub record_failed : ℕ → Target → Tried → Context
record_failed number t tried =
    let text = failure_text (tried.error) (tried.ctx.response_code) in
    let c = record (tried.ctx) {
      retry_count = tried.ctx.retry_count + 1;
      errors = tried.ctx.errors ++ text ∷ [];
    } in
    add_attempt c (attempt_record number t "failed" c.response_code (tried.duration_ms) text)

unfoldable pub give_up : Context → Message → World → Round
give_up c details w =
    stop (write_upstream_error (add_step c "Routing Engine" "failed" details) c.response_code) w

-- The budget of fallback hops, and the count of one more hop.
unfoldable pub spend : Option AttemptPolicy → List Target → Message → Context → World → Round
spend policy rest text c w =
    let cap = max_fallback_count policy in
    if ltb 0 cap && leb cap c.fallback_count
    then stop
        (write_error
          (add_step c "Routing Engine" "failed"
            (lit "Fallback budget exhausted (" ∷ num cap ∷ lit " hops)" ∷ []))
          c.response_code (lit "Fallback budget exhausted: " ∷ text))
        w
    else advance (some text) c.response_code
        (if is_last rest then c else record c { fallback_count = c.fallback_count + 1 }) w

abbrev pub auth_text : Target → Context → Message → Message
auth_text t c tail =
    lit "Auth error HTTP " ∷ num c.response_code ∷ lit " on " ∷ lit t.model_name ∷ tail

abbrev pub advancing : Target → Message
advancing u =
    lit " — advancing to combo model " ∷ lit u.model_name ∷ lit " (" ∷ lit u.provider ∷ lit ")" ∷ []

abbrev pub no_more_accounts : Target → Message
no_more_accounts t = lit " — no further " ∷ lit t.provider ∷ lit " accounts to try" ∷ []

-- 401 and 403: on to another model, or to another account of the same provider, or stop.
unfoldable pub fail_over :
    Option AttemptPolicy → Target → List Target → Message → Context → World → Round
unfolding spend give_up
fail_over policy t [] text c w = give_up c (auth_text t c (no_more_accounts t)) w
fail_over policy t (u ∷ rest) text c w =
    if not (str_eq u.model_name t.model_name)
    then spend policy (u ∷ rest) text
        (add_step c "Routing Engine" "info" (auth_text t c (advancing u))) w
    else if not (str_eq u.provider t.provider)
    then give_up c (auth_text t c (no_more_accounts t)) w
    else spend policy (u ∷ rest) text c w

unfoldable pub class_of : AttemptPolicy → Tried → ErrorClass
class_of policy tried = elim (tried.error) [
  | none ↦ classify_with_policy (tried.ctx.response_code) policy.fallback_policy
  | some e ↦ retryable
]

unfoldable pub decide :
    ErrorClass → AttemptPolicy → Target → List Target → Message → Context → World → Round
unfolding give_up spend fail_over
decide terminal policy t rest text c w =
    give_up c
      (lit "Terminal error HTTP "
        ∷ num c.response_code
        ∷ lit " on "
        ∷ lit t.model_name
        ∷ lit " — not falling back"
        ∷ [])
      w
decide account_failover policy t rest text c w = fail_over (some policy) t rest text c w
decide retryable policy t rest text c w = spend (some policy) rest text c w

unfoldable pub on_failure : AttemptPolicy → ℕ → Target → List Target → Tried → Round
unfolding class_of decide
on_failure policy number t rest tried =
    decide (class_of policy tried) policy t rest
      (failure_text (tried.error) (tried.ctx.response_code)) (record_failed number t tried)
      (note_failure t tried)

-- A success of a progressive route with a poor answer goes on while another target is left.
unfoldable pub settle_success :
    Route → ℕ → Target → List Target → Tried → Option Message → ℕ → Round
unfolding on_success on_low_confidence
settle_success r number t [] tried last_err last_status = on_success number t [] tried
settle_success r number t (u ∷ rest) tried last_err last_status =
    if str_eq r.kind "progressive" && r.low (tried.ctx.response_body)
    then on_low_confidence number t u tried last_err last_status
    else on_success number t (u ∷ rest) tried

unfoldable pub settle : Route → ℕ → Target → List Target → Tried → Option Message → ℕ → Round
settle r number t rest tried last_err last_status =
    if is_success (tried.error) (tried.ctx.response_code)
    then settle_success r number t rest tried last_err last_status
    else on_failure r.policy number t rest tried

abbrev pub timeout_for : Route → List Target → ℕ
timeout_for r rest =
    if is_last rest then final_timeout (some r.policy) else attempt_timeout (some r.policy)

unfoldable pub exhausted : Option Message → ℕ → Context → World → Outcome
exhausted last_err last_status c w =
    let text : Message = elim last_err [
      | none ↦ note "All provider accounts and routes exhausted"
      | some e ↦ lit "All provider accounts and routes exhausted" ∷ lit ": " ∷ e
    ] in
    return
      (add_step (write_error c last_status text) "Routing Engine" "failed"
        (note "All attempts failed"))
      w

-- The loop itself. Attempts are numbered from 1.
unfoldable pub sequential : Route → ℕ → List Target → Option Message → ℕ → Context → World → Outcome
sequential r number [] last_err last_status c w = exhausted last_err last_status c w
sequential r number (t ∷ rest) last_err last_status c w =
    let tried = attempt r.next t r.body number (timeout_for r rest) c w in
    elim (settle r number t rest tried last_err last_status) [
      | stop c' w' ↦ return c' w'
      | advance e s c' w' ↦ sequential r (suc number) rest e s c' w'
    ]
