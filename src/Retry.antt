-- ===== src/Retry.antt =====
-- internal/gateway/middleware/retry.go: `Retry`, the middleware that tries the targets of a route.
pub mod Attempt
pub mod Sequential
pub mod Single
pub mod Laws
pub mod Decision
pub mod Attempts
pub mod Budget
pub mod Verdict
pub mod Relay
pub mod Child
pub mod Strategies
pub mod Answer
pub mod Parallel
pub mod Ensemble
pub mod Replay
pub mod Unrecorded
use my_ai_router.Common.{
  ℕ, suc, Bool, true, false, ◌||◌, Option, none, some, List, [], ◌∷◌, String, str_eq, note, Message,
  lit, if◌then◌else◌,
}
use my_ai_router.Policy.{AttemptPolicy, zero_policy}
use my_ai_router.Context.{Context, Target, add_step, write_error}
use my_ai_router.Pipeline.{World, Outcome, Handler, Middleware, return}
use Sequential.{Route, sequential}
use Single.{single}
use Strategies.{Schedule, concurrent}

-- `resolveAttemptPolicy`
unfoldable pub resolve_attempt_policy : Option AttemptPolicy → AttemptPolicy
resolve_attempt_policy none = zero_policy
resolve_attempt_policy (some p) = p

-- The kinds that run their targets at once when the client does not stream.
abbrev pub is_concurrent : String → Bool
is_concurrent kind = str_eq kind "race" || (str_eq kind "parallel" || str_eq kind "ensemble")

unfoldable pub route_of : Handler → (String → Bool) → Context → Route
route_of next low c = record {
  policy = resolve_attempt_policy (c.metadata.attempt_policy);
  kind = c.metadata.combo_kind;
  body = c.request_body;
  next = next;
  low = low;
}

unfoldable pub run_sequential : (String → Bool) → List Target → Handler → Handler
run_sequential low targets next c w =
    let kind = c.metadata.combo_kind in
    let told =
      if is_concurrent kind
      then add_step c "Routing Engine" "info" (
          lit "Combo '"
          ∷ lit kind
          ∷ lit
              "' requests concurrent execution, which requires stream:false — running sequentially"
          ∷ [])
      else c in
    sequential (route_of next low c) 1 targets none 503 told w

-- A schedule says in which order the children of a concurrent strategy report.
unfoldable pub retry_all : Schedule → (String → Bool) → Target → List Target → Middleware
retry_all s low primary rest next c w =
    if c.is_stream
    then run_sequential low (primary ∷ rest) next c w
    else if is_concurrent c.metadata.combo_kind
    then concurrent s c.metadata.combo_kind primary rest next c w
    else run_sequential low (primary ∷ rest) next c w

unfoldable pub retry_targets : Schedule → (String → Bool) → List Target → Middleware
unfolding run_sequential retry_all
retry_targets s low [] next c w =
    return
      (add_step (write_error c 503 (note "Routing targets not resolved")) "Routing Engine" "failed"
        (note "No targets available"))
      w
retry_targets s low (t ∷ []) next c w = single next t c w
retry_targets s low (t ∷ u ∷ rest) next c w = retry_all s low t (u ∷ rest) next c w

unfoldable pub retry : Schedule → (String → Bool) → Middleware
unfolding retry_targets
retry s low next c w = retry_targets s low c.metadata.routing_targets next c w
