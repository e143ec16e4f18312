-- ===== src/Policy.antt =====
-- internal/gateway/middleware/errorclass.go, and the attempt policy of pkg/db/combos.go: how an
-- upstream failure is classified, and how long and how often a route may try.
pub mod Classes
use my_ai_router.Common.{
  ℕ, ◌*◌, Bool, true, false, ◌||◌, Option, none, some, String, str_eq, ltb, leb, ◌==◌,
  if◌then◌else◌,
}

pub data ErrorClass : Type 0 where
  retryable account_failover terminal : ErrorClass

unfoldable pub classify_status : ℕ → ErrorClass
classify_status code =
    if code == 0
    then retryable
    else if (code == 408) || (code == 429)
    then retryable
    else if (code == 401) || (code == 403)
    then account_failover
    else if leb 500 code
    then retryable
    else terminal

abbrev pub policy_auto : String
policy_auto = "auto"

abbrev pub policy_aggressive : String
policy_aggressive = "aggressive"

abbrev pub policy_conservative : String
policy_conservative = "conservative"

unfoldable pub classify_conservative : ℕ → ErrorClass
classify_conservative code =
    if (code == 0) || ((code == 408) || ((code == 429) || leb 500 code))
    then retryable
    else terminal

unfoldable pub classify_with_policy : ℕ → String → ErrorClass
unfolding classify_status classify_conservative
classify_with_policy code policy =
    if str_eq policy policy_aggressive
    then retryable
    else if str_eq policy policy_conservative
    then classify_conservative code
    else classify_status code

-- A field that the code tests by `> 0` is 0 here where it is not positive there.
pub record AttemptPolicy : Type 0 where
  pub attempt_timeout_ms : ℕ
  pub final_timeout_ms : ℕ
  pub max_fallbacks : ℕ
  pub fallback_policy : String

abbrev pub zero_policy : AttemptPolicy
zero_policy = record {
  attempt_timeout_ms = 0;
  final_timeout_ms = 0;
  max_fallbacks = 0;
  fallback_policy = "";
}

abbrev pub millisecond : ℕ
millisecond = 1_000_000

abbrev pub default_attempt_timeout_ms : ℕ
default_attempt_timeout_ms = 3500

abbrev pub default_final_timeout_ms : ℕ
default_final_timeout_ms = 60000

-- The three getters are called on a nil policy too.
unfoldable pub attempt_timeout : Option AttemptPolicy → ℕ
attempt_timeout none = default_attempt_timeout_ms * millisecond
attempt_timeout (some p) =
    (if ltb 0 p.attempt_timeout_ms then p.attempt_timeout_ms else default_attempt_timeout_ms)
    * millisecond

unfoldable pub final_timeout : Option AttemptPolicy → ℕ
final_timeout none = default_final_timeout_ms * millisecond
final_timeout (some p) =
    (if ltb 0 p.final_timeout_ms then p.final_timeout_ms else default_final_timeout_ms)
    * millisecond

unfoldable pub max_fallback_count : Option AttemptPolicy → ℕ
max_fallback_count none = 0
max_fallback_count (some p) = if ltb 0 p.max_fallbacks then p.max_fallbacks else 0

unfoldable pub normalized : Option AttemptPolicy → Option AttemptPolicy
normalized none = none
normalized (some p) = some (record p {
  fallback_policy =
      if str_eq p.fallback_policy policy_aggressive || str_eq p.fallback_policy policy_conservative
      then p.fallback_policy
      else policy_auto;
})
