-- ===== src/Health.antt =====
-- internal/gateway/health/tracker.go: the health of each upstream connection.
-- Times are nanoseconds, and 0 is Go's zero time. The average is exact, without float64 rounding.
pub mod Cooldown
pub mod Average
use my_ai_router.Common.{
  ℕ, zero, suc, ◌+◌, ◌-◌, ◌*◌, ◌^◌, Bool, true, false, Option, none, some, Dict, get, put, ltb, leb,
  ◌==◌, if◌then◌else◌, String,
}

abbrev pub base_cooldown : ℕ
base_cooldown = 30_000_000_000

abbrev pub max_cooldown : ℕ
max_cooldown = 300_000_000_000

-- The number `digits / 10 ^ places`.
pub record Decimal : Type 0 where
  pub digits : ℕ
  pub places : ℕ

abbrev pub zero_ms : Decimal
zero_ms = record { digits = 0; places = 0 }

abbrev pub whole : ℕ → Decimal
whole n = record { digits = n; places = 0 }

pub record ConnState : Type 0 where
  pub consecutive_failures : ℕ
  pub cooldown_until : ℕ
  pub ewma_latency_ms : Decimal
  pub ewma_ttfb_ms : Decimal
  pub samples : ℕ
  pub last_failure_at : ℕ

abbrev pub Tracker : Type 0
Tracker = Dict ConnState

abbrev pub new_state : ConnState
new_state = record {
  consecutive_failures = 0;
  cooldown_until = 0;
  ewma_latency_ms = zero_ms;
  ewma_ttfb_ms = zero_ms;
  samples = 0;
  last_failure_at = 0;
}

-- `s := t.states[id]; if s == nil { s = &connState{} }`
unfoldable pub state_of : Tracker → String → ConnState
state_of t id = elim (get id t) [ none ↦ new_state | some s ↦ s ]

-- `prev * 0.7 + next * 0.3`, and the sample itself where there is no estimate yet.
unfoldable pub ewma : Decimal → ℕ → Decimal
ewma prev next =
    if prev.digits == 0
    then whole next
    else record { digits = prev.digits * 7 + next * 3 * 10 ^ prev.places; places = suc prev.places }

abbrev pub fold_sample : Decimal → ℕ → Decimal
fold_sample prev sample = if ltb 0 sample then ewma prev sample else prev

unfoldable pub record_success : Tracker → String → ℕ → ℕ → Tracker
record_success t id latency_ms ttfb_ms =
    let s = state_of t id in
    put id
      (record {
        consecutive_failures = 0;
        cooldown_until = 0;
        ewma_latency_ms = fold_sample s.ewma_latency_ms latency_ms;
        ewma_ttfb_ms = fold_sample s.ewma_ttfb_ms ttfb_ms;
        samples = s.samples + 1;
        last_failure_at = s.last_failure_at;
      })
      t

-- `for i := 1; i < failures; i++ { backoff *= 2; if backoff >= max { backoff = max; break } }`
-- The first argument is the number of rounds left.
unfoldable pub double_capped : ℕ → ℕ → ℕ
double_capped zero backoff = backoff
double_capped (suc rounds) backoff = elim (leb max_cooldown (backoff * 2)) [
  | true ↦ max_cooldown
  | false ↦ double_capped rounds (backoff * 2)
]

-- The cooldown after so many failures in a row.
unfoldable pub backoff_for : ℕ → ℕ
unfolding double_capped
backoff_for failures = double_capped (failures - 1) base_cooldown

unfoldable pub record_failure : Tracker → String → ℕ → Tracker
record_failure t id now =
    let s = state_of t id in
    put id
      (record s {
        consecutive_failures = s.consecutive_failures + 1;
        cooldown_until = now + backoff_for (s.consecutive_failures + 1);
        last_failure_at = now;
      })
      t

unfoldable pub in_cooldown : Tracker → String → ℕ → Bool
in_cooldown t id now = elim (get id t) [ none ↦ false | some s ↦ ltb now s.cooldown_until ]

-- The estimate that accounts are ordered by; `unsampled` is the code's -1.
pub data Latency : Type 0 where
  unsampled : Latency
  estimate : Decimal → Latency

unfoldable pub latency_ms : Tracker → String → Latency
latency_ms t id = elim (get id t) [
  | none ↦ unsampled
  | some s ↦ if s.samples == 0 then unsampled else estimate s.ewma_latency_ms
]

-- `<` of the code's floats: -1 lies below every estimate.
unfoldable pub faster : Latency → Latency → Bool
faster unsampled unsampled = false
faster unsampled (estimate b) = true
faster (estimate a) unsampled = false
faster (estimate a) (estimate b) = ltb (a.digits * 10 ^ b.places) (b.digits * 10 ^ a.places)
