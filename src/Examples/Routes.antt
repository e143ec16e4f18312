-- ===== src/Examples/Routes.antt =====
-- Runs of the loop over the targets.
use my_ai_router.Common.{
  ℕ, ◌≤◌, ◌≡◌, refl, true, none, List, [], ◌∷◌, ◌++◌, String, length, arith, ltb,
}
use my_ai_router.Policy.{max_fallback_count, zero_policy, AttemptPolicy}
use my_ai_router.Context.{Context, Target, raw, send}
use my_ai_router.Pipeline.{Handler, return}
use my_ai_router.Retry.Attempt.{Tried, start_attempt}
use my_ai_router.Retry.Sequential.{Route, sequential, settle}
use my_ai_router.Retry.Single.{single}
use my_ai_router.Retry.Attempts.{IsAttempt, Numbered, sequential-Numbered}
use my_ai_router.Retry.Budget.{calls, sequential-calls-le}
use my_ai_router.Retry.Verdict.{goes_on, should_go_on, goes_on-settle}
use my_ai_router.Retry.Relay.{single_drops}
use my_ai_router.Examples.{one_hop, two_targets, target, quiet_world, request_for, body_for}

-- An upstream that answers with the status and the body, and one that relays its answer at once.
abbrev answering : ℕ → String → Handler
answering code body c w = return (record c { response_code = code; response_body = body }) w

abbrev relaying : String → Handler
relaying body c w =
    return
      (record c {
        response_code = 200;
        response_body = body;
        response_written = true;
        socket = send 200 (raw body) c.socket;
      })
      w

answering-IsAttempt : (code : ℕ) (body : String) → IsAttempt (answering code body)
answering-IsAttempt code body = record {
  keeps_attempts = λ c w. refl;
  keeps_fallbacks = λ c w. refl;
}

abbrev route_with : AttemptPolicy → String → Handler → Route
route_with policy kind next = record {
  policy = policy;
  kind = kind;
  body = body_for "fast";
  next = next;
  low = λ body. ltb 0 1;
}

abbrev failing_route : Route
failing_route = route_with one_hop "smart" (answering 500 "")

abbrev first_account : Target
first_account = target "a1" "openai" "gpt-4o"

abbrev second_account : Target
second_account = target "a2" "openai" "gpt-4o"

abbrev request : Context
request = request_for "fast"

abbrev three_targets : List Target
three_targets = two_targets ++ target "c1" "gemini" "gemini-pro" ∷ []

sequential-calls-le_example :
    calls
      (sequential failing_route 1 three_targets none 503 request quiet_world).ctx.target_attempts
    ≤ 2
unfolding max_fallback_count
sequential-calls-le_example =
    sequential-calls-le failing_route 1 three_targets request quiet_world
      (answering-IsAttempt 500 "") refl refl (omega arith) refl refl

sequential-Numbered_example :
    let after =
      (sequential failing_route 1 three_targets none 503 request quiet_world).ctx.target_attempts in
    Numbered 1 after × (length after ≤ length three_targets)
sequential-Numbered_example =
    sequential-Numbered failing_route three_targets request quiet_world (answering-IsAttempt 500 "")
      refl

-- An attempt whose account was refused.
abbrev refused_attempt : Tried
refused_attempt = record {
  error = none;
  ctx = record request { response_code = 401 };
  world = quiet_world;
  duration_ms = 12;
}

abbrev auto_route : Route
auto_route = route_with zero_policy "smart" (answering 401 "")

goes_on-settle_example :
    goes_on (
      settle auto_route 1 first_account
        (target "b1" "azure" "gpt-4o" ∷ [])
        refused_attempt
        none
        503)
    ≡ should_go_on auto_route first_account (target "b1" "azure" "gpt-4o" ∷ []) refused_attempt
goes_on-settle_example =
    goes_on-settle auto_route 1 first_account (target "b1" "azure" "gpt-4o" ∷ []) refused_attempt
      none 503

single_drops_example :
    (single (answering 500 "") first_account request quiet_world).ctx.socket ≡ request.socket
unfolding start_attempt
single_drops_example =
    single_drops (answering 500 "") first_account request quiet_world refl refl refl
