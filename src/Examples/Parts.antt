-- ===== src/Examples/Parts.antt =====
-- Runs of the parts that keep state: health, limits, live records, routing and the optimizer.
use mathlib.Core.List.{Perm}
use my_ai_router.Common.{
  map, ℕ, ◌+◌, ◌-◌, ◌*◌, ◌^◌, ◌≤◌, ◌≡◌, refl, true, false, List, [], ◌∷◌, ◌++◌, length, keep_if,
  All, arith, ltb, min, get,
}
use my_ai_router.Json.{Json, string, object, field, end, member}
use my_ai_router.Health.{
  Tracker, record_success, record_failure, in_cooldown, base_cooldown, max_cooldown,
}
use my_ai_router.Health.Cooldown.{fail_at, cooldown_of_streak}
use my_ai_router.Limiter.{take_token, token}
use my_ai_router.Limiter.Rate.{admitted, admitted_rate, take_token_after_second}
use my_ai_router.Pipeline.{Bucket}
use my_ai_router.Live.{Session, ActivityTracker, new_session, begin_activity, reap, drop_stale}
use my_ai_router.Live.Sessions.{attempt_started, finish}
use my_ai_router.Live.Accounting.{IsAccounted}
use my_ai_router.Live.History.{
  start, after, begins, attempts, ends, empty_tracker, History-IsAccounted,
}
use my_ai_router.Routing.Targets.{candidate_targets}
use my_ai_router.Routing.Distinct.{Distinct, candidate_targets-Distinct}
use my_ai_router.Routing.Order.{order_by_health, rested_or_all, is_rested}
use my_ai_router.Routing.Health.{order_by_health-perm}
use my_ai_router.Optimizer.{OptimizationContext, answered, Pass, Registry, estimate}
use my_ai_router.Optimizer.Runner.{optimize, find_validator, inflation}
use my_ai_router.Optimizer.Safety.{WritesNoLonger, optimize-shrinks}
use my_ai_router.Examples.{two_targets, two_accounts}

abbrev failure_times : List ℕ
failure_times = 5 ∷ 7 ∷ []

cooldown_of_streak_example :
    in_cooldown
      (record_failure (fail_at (record_success [] "a1" 120 30) "a1" failure_times) "a1" 9)
      "a1"
      100
    ≡ ltb 100 (9 + min (base_cooldown * 2 ^ length failure_times) max_cooldown)
cooldown_of_streak_example = cooldown_of_streak [] "a1" 120 30 failure_times 9 100

abbrev spent_bucket : Bucket
spent_bucket = record { tokens = token; last_check = 0 }

admitted_rate_example : admitted spent_bucket (1 ∷ 2 ∷ token ∷ []) * token ≤ token + (2 * token - 0)
admitted_rate_example =
    admitted_rate spent_bucket (2 * token) (1 ∷ 2 ∷ token ∷ [])
      (omega arith, (omega arith, (omega arith, omega arith)))

take_token_after_second_example : (take_token (2 * token) spent_bucket).1 ≡ true
take_token_after_second_example = take_token_after_second (2 * token) spent_bucket (omega arith)

abbrev begun : ActivityTracker
begun = (begin_activity empty_tracker "req-1" "gpt-4o" 10).0

abbrev in_attempt : ActivityTracker
in_attempt = attempt_started begun "req-1" "openai" "gpt-4o" 1 20

History-IsAccounted_example : IsAccounted (finish in_attempt "req-1" 200 true 5 7 "" 30)
unfolding begin_activity get reap drop_stale
History-IsAccounted_example = History-IsAccounted (
    after
      (after (after start (begins "req-1" "gpt-4o" 10 refl))
        (attempts "req-1" "openai" "gpt-4o" 1 20))
      (ends "req-1" 200 true 5 7 "" 30))

abbrev upstream_session : Session
upstream_session = record (new_session "gpt-4o" 9_000_000_000) { inflight = 1 }

candidate_targets-Distinct_example :
    Distinct (candidate_targets two_accounts ("openai/gpt-4o" ∷ "openai/gpt-4o" ∷ []))
    × All
        (λ t. t.connection.is_active ≡ true)
        (candidate_targets two_accounts ("openai/gpt-4o" ∷ "openai/gpt-4o" ∷ []))
candidate_targets-Distinct_example =
    candidate_targets-Distinct two_accounts ("openai/gpt-4o" ∷ "openai/gpt-4o" ∷ [])

abbrev cooling : Tracker
cooling = record_failure [] "a1" 50

order_by_health-perm_example :
    Perm
      (order_by_health cooling 60 two_targets)
      (rested_or_all two_targets (keep_if (is_rested cooling 60) two_targets))
order_by_health-perm_example = order_by_health-perm cooling 60 two_targets

-- A pass that doubles the messages, and one that drops them.
abbrev doubling : Pass
doubling = record {
  name = "doubling";
  before = [];
  after = [];
  can_run = λ c. true;
  run = λ c. answered (record {
    messages = c.messages ++ c.messages;
    success = true;
    rollback = false;
    warnings = [];
  });
  left = λ original c. record { original = original; current = c.messages };
}

abbrev blank : Json → Json
blank m = object (field "content" (string "") end)

-- This one blanks the messages that it is given, too.
abbrev dropping : Pass
dropping = record {
  name = "tool";
  before = [];
  after = "doubling" ∷ [];
  can_run = λ c. true;
  run = λ c. answered (record { messages = []; success = true; rollback = false; warnings = [] });
  left = λ original c. record { original = map blank original; current = map blank c.messages };
}

-- What the two write is no longer than what they are given.
doubling-WritesNoLonger : WritesNoLonger doubling
doubling-WritesNoLonger original c = (omega arith, omega arith)

estimate-blank : (messages : List Json) → estimate (map blank messages) ≤ estimate messages
unfolding estimate member
estimate-blank [] = omega arith
estimate-blank (m ∷ rest) = omega (arith, estimate-blank rest)

dropping-WritesNoLonger : WritesNoLonger dropping
dropping-WritesNoLonger original c = (estimate-blank original, estimate-blank c.messages)

abbrev short_context : OptimizationContext
short_context = record {
  messages = object (field "content" (string "a long question") end) ∷ [];
  content_type = "log";
  has_json = false;
  has_code = false;
  has_logs = true;
  estimated_tokens = 3;
  goal = "";
}

optimize-shrinks_example :
    (estimate (optimize (inflation ∷ []) short_context (doubling ∷ dropping ∷ [])).messages
      ≤ estimate short_context.messages)
    × ((optimize (inflation ∷ []) short_context (doubling ∷ dropping ∷ [])).optimized_tokens ≤ 3)
unfolding find_validator estimate member
optimize-shrinks_example =
    optimize-shrinks (inflation ∷ []) short_context (doubling ∷ dropping ∷ []) refl refl
      (doubling-WritesNoLonger, (dropping-WritesNoLonger, tt))

abbrev small_registry : Registry
small_registry = record {
  passes = ("tool", dropping) ∷ [];
  validators = inflation ∷ [];
  engines = [];
}
